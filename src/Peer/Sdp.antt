-- ===== src/Peer/Sdp.antt =====
-- src/peer.ts: `mungeAnswerForSimulcast` and the part of `acceptAnswer` that calls it.
use ad4m_link_language_tests.Prelude.{
  Text, str, ◌≡◌, ◌≢◌, refl, ap, ◌∙◌, Bool, true, false, ◌&&◌, ◌||◌, not, Option, none, some, any,
  List, [], ◌∷◌, ◌++◌, map, ◌===◌, starts_with, includes, arith, if◌then◌else◌, Bool-cases, ◌⊎◌,
  inl, inr, includes-append, append_assoc,
}
use ad4m_link_language_tests.Peer.Lines.{split, join, crlf, join-split, join-around}

-- The two `if`s at the head of the loop: whether the section of `line` is a video section.
next_video : Bool → Text → Bool
next_video in_video line =
    if starts_with line (str "m=video")
    then true
    else if starts_with line (str "m=") && not (starts_with line (str "m=video"))
    then false
    else in_video

is_direction : Text → Bool
is_direction line = line === str "a=recvonly" || line === str "a=sendrecv"

abbrev rid_line : Text → Text
rid_line rid = str "a=rid:" ++ (rid ++ str " recv")

abbrev simulcast_line : List Text → Text
simulcast_line rids = str "a=simulcast:recv " ++ join (str ";") rids

-- What the loop pushes after the direction line.
pub acknowledgement : List Text → List Text
acknowledgement rids = map rid_line rids ++ simulcast_line rids ∷ []

-- The loop over the lines; the result is what it pushes from here on.
munge_lines : List Text → Bool → Bool → List Text → List Text
unfolding next_video is_direction acknowledgement
munge_lines rids in_video inserted [] = []
munge_lines rids in_video inserted (line ∷ lines) =
    let video = next_video in_video line in
    let insert_here = video && (not inserted && is_direction line) in
    let rest = munge_lines rids video (inserted || insert_here) lines in
    line ∷ (if insert_here then acknowledgement rids ++ rest else rest)

is_empty : List Text → Bool
is_empty [] = true
is_empty (_ ∷ _) = false

unfoldable pub munge_answer_for_simulcast : Text → List Text → Text
unfolding munge_lines is_empty
munge_answer_for_simulcast sdp rids =
    if includes sdp (str "a=simulcast:")
    then sdp
    else if is_empty rids
    then sdp
    else join crlf (munge_lines rids false false (split sdp))

-- `acceptAnswer`: the description that `setRemoteDescription` is given.
unfoldable pub accept_answer : List Text → Text → Text
unfolding munge_answer_for_simulcast
accept_answer simulcast_rids sdp =
    if is_empty simulcast_rids then sdp else munge_answer_for_simulcast sdp simulcast_rids

-- The media line of the section that `line` stands in, where `m` is that of the lines before it.
pub next_media : Option Text → Text → Option Text
next_media m line = if starts_with line (str "m=") then some line else m

pub last_media : Option Text → List Text → Option Text
unfolding next_media
last_media m [] = m
last_media m (l ∷ ls) = last_media (next_media m l) ls

pub is_video : Option Text → Bool
is_video none = false
is_video (some media) = starts_with media (str "m=video")

pub receives : Text → Bool
receives line = any (λ d. line === d) (str "a=recvonly" ∷ str "a=sendrecv" ∷ [])

-- A line `a=recvonly` or `a=sendrecv` of a video section.
pub is_target : Option Text → Text → Bool
unfolding next_media is_video receives
is_target m line = is_video (next_media m line) && receives line

pub NoTarget : Option Text → List Text → Type 0
unfolding is_target next_media
NoTarget m [] = Unit
NoTarget m (l ∷ ls) = (is_target m l ≡ false) × NoTarget (next_media m l) ls

-- One `a=rid` line for each layer, and one line that names them all.
pub acknowledged : List Text → List Text
acknowledged rids =
    map (λ rid. str "a=rid:" ++ (rid ++ str " recv")) rids
    ++ (str "a=simulcast:recv " ++ join (str ";") rids) ∷ []

acknowledgement-acknowledged : (rids : List Text) → acknowledgement rids ≡ acknowledged rids
unfolding acknowledgement acknowledged
acknowledgement-acknowledged rids = refl

video_media : (l : Text) → starts_with l (str "m=video") ≡ true → starts_with l (str "m=") ≡ true
unfolding starts_with
video_media [] h = ground (arith, h)
video_media (c ∷ []) h = ground (arith, h)
video_media (c ∷ (d ∷ l)) h = ground (arith, h)

next_video-is_video :
    (m : Option Text) (l : Text) → next_video (is_video m) l ≡ is_video (next_media m l)
unfolding next_video is_video next_media
next_video-is_video m l = elim (Bool-cases (starts_with l (str "m="))) [
  | inl media ↦ rw media (ground arith)
  | inr other ↦ rw other (ground (arith, other, video_media l))
]

is_direction-receives : (l : Text) → is_direction l ≡ receives l
unfolding is_direction receives
is_direction-receives l = ground arith

munge_lines_done : (rids : List Text) (v : Bool) (ls : List Text) → munge_lines rids v true ls ≡ ls
unfolding munge_lines
munge_lines_done rids v [] = refl
munge_lines_done rids v (l ∷ ls) = ground (arith, munge_lines_done rids (next_video v l) ls)

-- The lines around the one place where the loop inserts.
pub record Insertion (rids : List Text) (m : Option Text) (ls out : List Text) : Type 0 where
  pub before : List Text
  pub line : Text
  pub after : List Text
  pub here : ls ≡ before ++ (line ∷ after)
  pub first : NoTarget m before
  pub target : is_target (last_media m before) line ≡ true
  pub inserted : out ≡ before ++ (line ∷ (acknowledged rids ++ after))

munge_lines_at :
    (rids : List Text) (v : Bool) (l : Text) (ls : List Text)
    → munge_lines rids v false (l ∷ ls)
      ≡ l
        ∷ (if next_video v l && is_direction l
            then acknowledgement rids ++ ls
            else munge_lines rids (next_video v l) false ls)
unfolding munge_lines
munge_lines_at rids v l ls = elim (Bool-cases (next_video v l && is_direction l)) [
  | inl hit ↦
      rw hit (ap (λ r. l ∷ (acknowledgement rids ++ r)) (munge_lines_done rids (next_video v l) ls))
  | inr miss ↦ rw miss refl
]

munge_lines_step :
    (rids : List Text) (m : Option Text) (l : Text) (ls : List Text)
    → munge_lines rids (is_video m) false (l ∷ ls)
      ≡ l
        ∷ (if is_target m l
            then acknowledged rids ++ ls
            else munge_lines rids (is_video (next_media m l)) false ls)
unfolding is_target
munge_lines_step rids m l ls =
    munge_lines_at rids (is_video m) l ls
    ∙ rw (next_video-is_video m l, is_direction-receives l, acknowledgement-acknowledged rids) refl

munge_lines_cases :
    (rids : List Text) (m : Option Text) (ls : List Text)
    → (NoTarget m ls × (munge_lines rids (is_video m) false ls ≡ ls))
      ⊎ Insertion rids m ls (munge_lines rids (is_video m) false ls)
munge_lines_cases rids m [] = inl (unfold NoTarget in tt, unfold munge_lines in refl)
munge_lines_cases rids m (l ∷ ls) = elim (Bool-cases (is_target m l)) [
  | inl hit ↦ inr (record {
    before = [];
    line = l;
    after = ls;
    here = refl;
    first = unfold NoTarget in tt;
    target = unfold last_media in hit;
    inserted = ground (arith, hit, munge_lines_step rids m l ls);
  })
  | inr miss ↦ elim (munge_lines_cases rids (next_media m l) ls) [
    | inl (none_later, same) ↦ inl (
      unfold NoTarget in (miss, none_later),
      ground (arith, miss, same, munge_lines_step rids m l ls),
    )
    | inr i ↦ inr (record {
      before = l ∷ i.before;
      line = i.line;
      after = i.after;
      here = ap (λ t. l ∷ t) i.here;
      first = unfold NoTarget in (miss, i.first);
      target = unfold last_media in i.target;
      inserted = ground (arith, miss, i.inserted, munge_lines_step rids m l ls);
    })
  ]
]

includes-simulcast :
    (rids before after : List Text)
    → includes (join crlf (before ++ (simulcast_line rids ∷ after))) (str "a=simulcast:") ≡ true
includes-simulcast rids before after =
    let (a, b, e) = join-around crlf before (simulcast_line rids) after in
    rw e (includes-append a (str "a=simulcast:") (str "recv " ++ (join (str ";") rids ++ b)))

munge_keeps :
    (sdp : Text) (rids : List Text)
    → (includes sdp (str "a=simulcast:") ≡ true) ⊎ (rids ≡ [])
    → munge_answer_for_simulcast sdp rids ≡ sdp
unfolding munge_answer_for_simulcast
munge_keeps sdp [] h = ground arith
munge_keeps sdp (r ∷ rs) h = ground arith

-- With layers to acknowledge and no `a=simulcast:` in it, an answer becomes its own lines: either
-- unchanged, when no video section has a line `a=recvonly` or `a=sendrecv`, or with one `a=rid` line
-- for each layer and one `a=simulcast:recv` line put right behind the first such line, and nothing
-- else changed.
pub munge_inserts :
    (sdp : Text) (rids : List Text)
    → includes sdp (str "a=simulcast:") ≡ false
    → rids ≢ []
    → (out : List Text) × (munge_answer_for_simulcast sdp rids ≡ join crlf out)
      × ((NoTarget none (split sdp) × (out ≡ split sdp)) ⊎ Insertion rids none (split sdp) out)
unfolding munge_answer_for_simulcast is_video
munge_inserts sdp [] h k = absurd (k refl)
munge_inserts sdp (r ∷ rs) h k = (
  munge_lines (r ∷ rs) false false (split sdp),
  rw h,
  munge_lines_cases (r ∷ rs) none (split sdp),
)

-- Munging an answer a second time changes nothing.
pub munge_idempotent :
    (sdp : Text) (rids : List Text)
    → munge_answer_for_simulcast (munge_answer_for_simulcast sdp rids) rids
      ≡ munge_answer_for_simulcast sdp rids
munge_idempotent sdp [] = ap (λ s. munge_answer_for_simulcast s []) (munge_keeps sdp [] (inr refl))
munge_idempotent sdp (r ∷ rs) = elim (Bool-cases (includes sdp (str "a=simulcast:"))) [
  | inl has ↦ ap (λ s. munge_answer_for_simulcast s (r ∷ rs)) (munge_keeps sdp (r ∷ rs) (inl has))
  | inr lacks ↦
      let (out, e, cases) = munge_inserts sdp (r ∷ rs) lacks (λ p. cc) in
      elim cases [
        | inl (_, same) ↦
            ap (λ s. munge_answer_for_simulcast s (r ∷ rs))
              (e ∙ ap (join crlf) same ∙ join-split sdp)
        | inr i ↦
            let grown = e ∙ ap (join crlf) (i.inserted ∙ regroup i) in
            munge_keeps _ (r ∷ rs) (
              inl (
                ap (λ s. includes s (str "a=simulcast:")) grown
                ∙ includes-simulcast (r ∷ rs) _ i.after))
      ]
]
  where
    regroup :
        {out : List Text} (i : Insertion (r ∷ rs) none (split sdp) out)
        → i.before ++ (i.line ∷ (acknowledged (r ∷ rs) ++ i.after))
          ≡ (i.before ++ (i.line ∷ map rid_line (r ∷ rs))) ++ (simulcast_line (r ∷ rs) ∷ i.after)
    regroup i = unfold acknowledged in simp append_assoc
