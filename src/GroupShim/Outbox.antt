-- ===== src/GroupShim/Outbox.antt =====
-- infra/ap-group-shim.mjs: what the outbox of a group serves after any requests.
pub mod Served
use ad4m_link_language_tests.Prelude.{
  Text, Dict, str, ℕ, ◌≡◌, ◌≢◌, refl, sym, ap, ◌∙◌, Bool, true, false, not, ◌&&◌, ◌||◌, Option,
  none, some, inl, inr, List, [], ◌∷◌, ◌++◌, ◌===◌, map, filter, any, length, arith, text_iff,
  text_refl, lookup, insert, lookup-insert, All, IsDistinct, Bool-cases, Option-cases,
  if◌then◌else◌, append_assoc, append-nil,
}
use ad4m_link_language_tests.Prelude.Outcome.{Outcome, returned, threw}
use ad4m_link_language_tests.GroupShim.{
  Activity, Parsed, bad, nothing, some_activity, Group, Request, Route, root, debug, unknown,
  no_group, group, route, text_of, id_or, new_group, group_or_new, keep_group, id_of, add_activity,
  reflect, items_from, items, is_content, received, shown_group, is_inbox, on_route, on_path,
  handle, serve,
}
use ad4m_link_language_tests.GroupShim.Firsts.{
  firsts, firsts-new, firsts-old, lookup-firsts, IsUnique, firsts-IsUnique, insert-new, map-snoc,
}

-- The types of activity that are acknowledged only.
left_out : Option Text → Bool
left_out none = false
left_out (some t) = any (λ kind. t === kind) (str "Follow" ∷ str "Undo" ∷ [])

is_content-left_out : (o : Option Text) → is_content o ≡ not (left_out o)
unfolding is_content left_out
is_content-left_out none = refl
is_content-left_out (some t) = ground arith

to_inbox : List Text → Bool
to_inbox [] = false
to_inbox (sub ∷ rest) = sub === str "inbox"

is_inbox-to_inbox : (sub : List Text) → is_inbox sub ≡ to_inbox sub
unfolding is_inbox to_inbox
is_inbox-to_inbox [] = refl
is_inbox-to_inbox (sub ∷ rest) = refl

module _ {V : Type 0} (parse : Text → Parsed V) where
  content_of : Parsed V → List (Text × Activity V)
  unfolding left_out text_of ◌===◌
  content_of bad = []
  content_of nothing = []
  content_of (some_activity a) = if left_out a.type then [] else (text_of a.id, a) ∷ []

  posted : Text → Text → Parsed V → List (Text × Activity V)
  unfolding content_of ◌===◌
  posted nid n p = if n === nid then content_of p else []

  delivered_to : Text → Request → Route → List (Text × Activity V)
  unfolding posted to_inbox ◌===◌
  delivered_to nid r (group n sub) =
      if to_inbox sub && r.method === str "POST" then posted nid n (parse r.body) else []
  delivered_to nid r _ = []

  delivered_by : Text → Request → Outcome Text → List (Text × Activity V)
  unfolding delivered_to route
  delivered_by nid r (threw e) = []
  delivered_by nid r (returned path) = delivered_to nid r (route path)

  -- What was posted to the inbox of the group, Follow and Undo left out, with its ids.
  unfoldable pub deliveries : Text → List Request → List (Text × Activity V)
  unfolding delivered_by
  deliveries nid [] = []
  deliveries nid (r ∷ rs) = delivered_by nid r r.pathname ++ deliveries nid rs

id_or-given : (id : Text) (n : ℕ) → id ≢ [] → id_or id n ≡ id
unfolding id_or
id_or-given [] n h = absurd (h refl)
id_or-given (c ∷ id) n h = refl

module _ {V : Type 0} where
  -- Every activity that is handed on has an id.
  abbrev pub HaveIds : Dict (Activity V) → Type 0
  HaveIds = All (λ e. e.0 ≢ [])

  -- The group holds the first of the activities with each id.
  Holds : Dict (Activity V) → Group V → Type 0
  Holds log g = (g.activity_by_id ≡ firsts log) × (g.order ≡ map (λ e. e.0) (firsts log))

  add_activity-Holds :
      (id : Text) (o : Option (Activity V)) (a : Activity V) (g : Group V) (log : Dict (Activity V))
      → lookup id log ≡ o
      → Holds log g
      → Holds (log ++ (id, a) ∷ []) (add_activity id o a g)
  unfolding Holds add_activity
  add_activity-Holds id (some w) a g log e (h, k) =
      let same = sym (firsts-old id a w log e) in (h ∙ same, k ∙ ap (map (λ e. e.0)) same)
  add_activity-Holds id none a g log e (h, k) =
      let more = sym (firsts-new id a log e) in
      (
        ap (insert id a) h ∙ insert-new id a (firsts log) (lookup-firsts id log ∙ e) ∙ more,
        ap (λ ids. ids ++ id ∷ []) k
            ∙ sym (map-snoc (λ e. e.0) (firsts log) (id, a))
            ∙ ap (map (λ e. e.0)) more,
      )

  reflect-Holds :
      (a : Activity V) (g : Group V) (log : Dict (Activity V))
      → text_of a.id ≢ []
      → Holds log g
      → Holds (log ++ (text_of a.id, a) ∷ []) (reflect a g)
  unfolding reflect id_of Holds
  reflect-Holds a g log h (e, k) = rw (id_or-given (text_of a.id) (length g.order) h) (
      add_activity-Holds (text_of a.id) (lookup (text_of a.id) g.activity_by_id) a g log
        (sym (lookup-firsts (text_of a.id) log) ∙ ap (lookup (text_of a.id)) (sym e)) (e, k))

  items_away :
      (ids : List Text) (i : Text) (a : Activity V) (m : Dict (Activity V))
      → All (λ j. i ≢ j) ids
      → items_from ids ((i, a) ∷ m) ≡ items_from ids m
  unfolding items_from lookup
  items_away [] i a m h = refl
  items_away (j ∷ ids) i a m (p, h) = ground (arith, text_iff i j, p, items_away ids i a m h)

  keys_away :
      (i : Text) (m : Dict (Activity V))
      → All (λ e. i ≢ e.0) m
      → All (λ j. i ≢ j) (map (λ e. e.0) m)
  keys_away i [] h = tt
  keys_away i (e ∷ m) (p, h) = (p, keys_away i m h)

  items_unique :
      (m : Dict (Activity V)) → IsUnique m → items_from (map (λ e. e.0) m) m ≡ map (λ e. e.1) m
  unfolding items_from lookup IsUnique
  items_unique [] h = refl
  items_unique ((i, a) ∷ m) (p, h) =
      ground (
        arith,
        text_refl i,
        items_away (map (λ e. e.0) m) i a m (keys_away i m p),
        items_unique m h,
      )

  items-Holds :
      (g : Group V) (log : Dict (Activity V)) → Holds log g → items g ≡ map (λ e. e.1) (firsts log)
  unfolding items Holds
  items-Holds g log (e, k) = rw e (rw k (items_unique (firsts log) (firsts-IsUnique log)))
