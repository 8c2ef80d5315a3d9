-- ===== src/Users/Provision.antt =====
-- `provisionPeers` on an executor that answers every request.
use mathlib.Core.List
use mathlib.Core.Path.{ap₂}
use ad4m_link_language_tests.Prelude.Outcome.{returned}
use ad4m_link_language_tests.Prelude.{
  Text, str, decimal_inj, ℕ, zero, suc, ◌<◌, ◌≡◌, ◌≢◌, IsDistinct, refl, sym, ap, ◌∙◌, subst, true,
  some, List, [], ◌∷◌, ◌++◌, All, arith, map, Bool, false, any, ◌===◌, text_iff, append_assoc,
}
use ad4m_link_language_tests.Users.{
  Request, user_create, user_login, connect, CreateReply, Executor, PeerSession, label_of, email_of,
  provision_one, provision_from, provision_peers,
}

-- Whether this user was asked for.
asks_for : Text → Request → Bool
asks_for email (user_create e p) = e === email
asks_for email _ = false

-- A user that was not asked for yet.
unfoldable pub IsNew : Text → List Request → Type 0
unfolding asks_for
IsNew email s = any (asks_for email) s ≡ false

-- An executor that creates every user it was not asked for before, hands out a token to a user that
-- was just created, and accepts a connection with a token that it just handed out.
pub record IsCooperative (ex : Executor) : Type 0 where
  pub creates :
      (s : List Request) (email password : Text)
      → IsNew email s
      → (r : CreateReply) × (ex.create s email password ≡ returned r) × (r.success ≡ true)
  pub logs_in :
      (s : List Request) (email password : Text)
      → IsNew email s
      → (c : ℕ) × (t : Text) × (ex.login (s ++ user_create email password ∷ []) email password
          ≡ returned (some (c ∷ t)))
  pub connects :
      (s : List Request) (email password token : Text)
      → ex.login s email password ≡ returned (some token)
      → ex.open_client (s ++ user_login email password ∷ []) token ≡ returned tt

-- The labels `prefix-i`, `prefix-(i + 1)`, …
unfoldable pub labels : Text → ℕ → ℕ → List Text
labels prefix zero i = []
labels prefix (suc n) i = label_of prefix i ∷ labels prefix n (suc i)

label_of_inj : (prefix : Text) (i j : ℕ) → label_of prefix i ≡ label_of prefix j → i ≡ j
label_of_inj [] i j e = decimal_inj i j (cc)
label_of_inj (c ∷ prefix) i j e = label_of_inj prefix i j (cc)

-- What the session of label `label` looks like.
abbrev pub IsSessionOf : Text → Text → PeerSession → Type 0
IsSessionOf domain label s = (s.label ≡ label) × (s.email ≡ email_of label domain) × (s.token ≢ [])

email_of_inj : (domain a b : Text) → email_of a domain ≡ email_of b domain → a ≡ b
email_of_inj domain a b e = List.append_cancel_right a b (b'@' ∷ domain) e

label_away :
    (prefix : Text) (i n j : ℕ) → i < j → All (λ y. label_of prefix i ≢ y) (labels prefix n j)
unfolding labels
label_away prefix i zero j lt = tt
label_away prefix i (suc n) j lt = (
  λ e. absurd (omega (arith, label_of_inj prefix i j e)),
  label_away prefix i n (suc j) (omega arith),
)

labels-IsDistinct : (prefix : Text) (n i : ℕ) → IsDistinct (labels prefix n i)
unfolding labels
labels-IsDistinct prefix zero i = tt
labels-IsDistinct prefix (suc n) i =
    (label_away prefix i n (suc i) (omega arith), labels-IsDistinct prefix n (suc i))

any-append :
    (f : Request → Bool) (xs ys : List Request)
    → any f xs ≡ false
    → any f ys ≡ false
    → any f (xs ++ ys) ≡ false
any-append f [] ys h k = k
any-append f (x ∷ xs) ys h k = ground (arith, h, any-append f xs ys (ground (arith, h)) k)

-- The requests of another user's round.
round_of : Text → Text → Text → List Request
round_of email password token =
    user_create email password ∷ user_login email password ∷ connect token ∷ []

IsNew-round :
    (email other password token : Text) (s : List Request)
    → other ≢ email
    → IsNew email s
    → IsNew email (s ++ round_of other password token)
unfolding IsNew asks_for round_of
IsNew-round email other password token s apart h =
    any-append (asks_for email) s (round_of other password token) h
      (ground (arith, text_iff other email, apart))

still-IsNew :
    (domain label password token : Text) (ls : List Text) (s : List Request)
    → All (λ y. label ≢ y) ls
    → All (λ l. IsNew (email_of l domain) s) ls
    → All (λ l. IsNew (email_of l domain) (s ++ round_of (email_of label domain) password token)) ls
still-IsNew domain label password token [] s away new = tt
still-IsNew domain label password token (l ∷ ls) s (p, away) (q, new) = (
  IsNew-round (email_of l domain) (email_of label domain) password token s
      (λ e. p (email_of_inj domain label l e)) q,
  still-IsNew domain label password token ls s away new,
)

module _ (ex : Executor) (coop : IsCooperative ex) where
  provision_one_ok :
      (label domain password : Text) (s : List Request)
      → IsNew (email_of label domain) s
      → (p : PeerSession) × (token : Text) × (provision_one ex label domain password s
          ≡ (returned p, s ++ round_of (email_of label domain) password token))
        × IsSessionOf domain label p
  provision_one_ok label domain password s new =
      let email = email_of label domain in
      let s1 : List Request = s ++ user_create email password ∷ [] in
      let s2 : List Request = s1 ++ user_login email password ∷ [] in
      let (r, made, ok) = coop.creates s email password new in
      let (c, t, logged) = coop.logs_in s email password new in
      let regroup : s2 ++ connect (c ∷ t) ∷ [] ≡ s ++ round_of email password (c ∷ t) =
        unfold round_of in
        append_assoc s1 (user_login email password ∷ []) (connect (c ∷ t) ∷ [])
        ∙ append_assoc s (user_create email password ∷ [])
            (user_login email password ∷ connect (c ∷ t) ∷ []) in
      let session : PeerSession = record {
        label = label;
        email = email;
        password = password;
        token = c ∷ t;
        did = r.did;
      } in
      (
        session,
        c ∷ t,
        subst (λ q. provision_one ex label domain password s ≡ (returned session, q)) regroup
            (unfold provision_one in
              ground (arith, made, ok, logged, coop.connects s1 email password (c ∷ t) logged)),
        (refl, refl, λ e. cc),
      )

  Sessions : (random : ℕ → Text) (prefix domain : Text) → ℕ → ℕ → List Request → Type 0
  Sessions random prefix domain n i s =
      (ps : List PeerSession) × (s' : List Request) × (provision_from ex random prefix domain n i s
        ≡ (returned ps, s'))
      × (map (λ p. p.label) ps ≡ labels prefix n i)
      × All (λ p. (p.email ≡ email_of p.label domain) × (p.token ≢ [])) ps

  provision_from_ok :
      (random : ℕ → Text) (prefix domain : Text) (n i : ℕ) (s : List Request)
      → All (λ l. IsNew (email_of l domain) s) (labels prefix n i)
      → Sessions random prefix domain n i s
  unfolding provision_from labels Sessions
  provision_from_ok random prefix domain zero i s new = ([], s, refl, refl, tt)
  provision_from_ok random prefix domain (suc n) i s (first, new) =
      let password = str "pw-" ++ random i in
      let label = label_of prefix i in
      let (p, token, ran, (named, mailed, held)) = provision_one_ok label domain password s first in
      let s1 = s ++ round_of (email_of label domain) password token in
      let (ps, s2, ran_on, all_named, rest) = provision_from_ok random prefix domain n (suc i) s1 (
        still-IsNew domain label password token (labels prefix n (suc i)) s
          (label_away prefix i n (suc i) (omega arith)) new) in
      (
        p ∷ ps,
        s2,
        ground (arith, ran, ran_on),
        ap₂ (λ x xs. x ∷ xs) named all_named,
        ((mailed ∙ ap (λ l. email_of l domain) (sym named), held), rest),
      )

emails_away :
    (domain l : Text) (ps : List PeerSession)
    → All (λ y. l ≢ y) (map (λ p. p.label) ps)
    → All (λ p. (p.email ≡ email_of p.label domain) × (p.token ≢ [])) ps
    → All (λ y. email_of l domain ≢ y) (map (λ p. p.email) ps)
emails_away domain l [] h m = tt
emails_away domain l (p ∷ ps) (q, h) ((e, _), m) =
    (λ f. q (email_of_inj domain l p.label (f ∙ e)), emails_away domain l ps h m)

emails-IsDistinct :
    (domain : Text) (ps : List PeerSession)
    → IsDistinct (map (λ p. p.label) ps)
    → All (λ p. (p.email ≡ email_of p.label domain) × (p.token ≢ [])) ps
    → IsDistinct (map (λ p. p.email) ps)
emails-IsDistinct domain [] d m = tt
emails-IsDistinct domain (p ∷ ps) (away, d) ((e, t), m) =
    (rw e (emails_away domain p.label ps away m), emails-IsDistinct domain ps d m)

-- On an executor that creates users it was not asked for before and serves them, and that was not
-- asked for these ones, `provisionPeers` returns `count` sessions, labelled `prefix-0`, `prefix-1`, …
-- in order, whose e-mail addresses are the labels at the domain and pairwise distinct, and whose
-- tokens are not empty.
pub provision_peers_ok :
    (ex : Executor) (random : ℕ → Text) (prefix domain : Text) (count : ℕ) (s : List Request)
    → IsCooperative ex
    → All (λ l. IsNew (email_of l domain) s) (labels prefix count 0)
    → (ps : List PeerSession) × ((provision_peers ex random prefix domain count s).0 ≡ returned ps)
      × (map (λ p. p.label) ps ≡ labels prefix count 0)
      × IsDistinct (map (λ p. p.email) ps)
      × All (λ p. (p.email ≡ email_of p.label domain) × (p.token ≢ [])) ps
unfolding provision_peers Sessions
provision_peers_ok ex random prefix domain count s coop new =
    let (ps, s', ran, named, rest) = provision_from_ok ex coop random prefix domain count 0 s new in
    let distinct : IsDistinct (map (λ (p : PeerSession). p.label) ps) =
      rw named (labels-IsDistinct prefix count 0) in
    (ps, ap (λ r. r.0) ran, named, emails-IsDistinct domain ps distinct rest, rest)
