-- ===== src/Peer/Lines.antt =====
-- `s.split("\r\n")` and `ls.join("\r\n")`.
use ad4m_link_language_tests.Prelude.{
  Text, ℕ, ◌==◌, ◌≡◌, refl, Bool, true, false, ◌&&◌, List, [], ◌∷◌, ◌++◌, arith, if◌then◌else◌,
  append_assoc, append-nil, sym,
}

push : ℕ → List Text → List Text
push c [] = (c ∷ []) ∷ []
push c (l ∷ ls) = (c ∷ l) ∷ ls

unfoldable pub split : Text → List Text
unfolding push
split [] = [] ∷ []
split (c ∷ []) = (c ∷ []) ∷ []
split (c ∷ (d ∷ s)) =
    let after = split s in
    let rest = split (d ∷ s) in if c == 13 && d == 10 then [] ∷ after else push c rest

abbrev pub crlf : Text
crlf = 13 ∷ 10 ∷ []

unfoldable pub join : Text → List Text → Text
join sep [] = []
join sep (l ∷ []) = l
join sep (l ∷ (l' ∷ ls)) = l ++ (sep ++ join sep (l' ∷ ls))

IsFull : List Text → Type 0
IsFull [] = ⊥
IsFull (l ∷ ls) = Unit

if-IsFull : (b : Bool) (c : ℕ) (xs ys : List Text) → IsFull (if b then [] ∷ xs else push c ys)
unfolding IsFull push
if-IsFull true c xs ys = tt
if-IsFull false c xs [] = tt
if-IsFull false c xs (y ∷ ys) = tt

split-IsFull : (s : Text) → IsFull (split s)
unfolding split
split-IsFull [] = unfold IsFull in tt
split-IsFull (c ∷ []) = unfold IsFull in tt
split-IsFull (c ∷ (d ∷ s)) = if-IsFull (c == 13 && d == 10) c (split s) (split (d ∷ s))

join-cons : (sep : Text) (ls : List Text) → IsFull ls → join sep ([] ∷ ls) ≡ sep ++ join sep ls
unfolding join IsFull
join-cons sep [] h = elim h [ ]
join-cons sep (l ∷ ls) h = refl

join-push :
    (sep : Text) (c : ℕ) (ls : List Text) → IsFull ls → join sep (push c ls) ≡ c ∷ join sep ls
unfolding join push IsFull
join-push sep c [] h = elim h [ ]
join-push sep c (l ∷ []) h = refl
join-push sep c (l ∷ (l' ∷ ls)) h = refl

-- Joining the lines of a text gives the text back.
pub join-split : (s : Text) → join crlf (split s) ≡ s
unfolding split
join-split [] = unfold join in refl
join-split (c ∷ []) = unfold join in refl
join-split (c ∷ (d ∷ s)) = ground (
  arith,
  join-cons crlf (split s) (split-IsFull s),
  join-push crlf c (split (d ∷ s)) (split-IsFull (d ∷ s)),
  join-split s,
  join-split (d ∷ s),
)

-- The text of one line stands whole in the joined text.
pub join-around :
    (sep : Text) (before : List Text) (l : Text) (after : List Text)
    → (a : Text) × (b : Text) × (join sep (before ++ l ∷ after) ≡ a ++ (l ++ b))
unfolding join
join-around sep [] l [] = ([], [], sym (append-nil l))
join-around sep [] l (m ∷ ms) = ([], sep ++ join sep (m ∷ ms), refl)
join-around sep (k ∷ []) l after =
    let (a, b, e) = join-around sep [] l after in (k ++ (sep ++ a), b, rw e (simp append_assoc))
join-around sep (k ∷ (k' ∷ ks)) l after =
    let (a, b, e) = join-around sep (k' ∷ ks) l after in
    (k ++ (sep ++ a), b, rw e (simp append_assoc))
