-- ===== src/GroupShim.antt =====
-- infra/ap-group-shim.mjs: groups that hand on to all members what one of them posts. `JSON.parse`
-- of a body is the parameter `parse`; `pathname` is what `new URL` makes of a request's URL.
mod Firsts
mod Outbox
mod Tests
use ad4m_link_language_tests.Prelude.{
  Text, Dict, str, decimal, ℕ, zero, suc, Bool, true, false, not, ◌&&◌, ◌||◌, ◌==◌, Option, none,
  some, List, [], ◌∷◌, ◌++◌, ◌===◌, map, filter, length, starts_with, lookup, insert, if◌then◌else◌,
}
use ad4m_link_language_tests.Prelude.Outcome.{Outcome, returned, threw, ◌>>=◌}

-- An activity with its `type` and `id`, where these are strings.
pub record Activity (V : Type 0) : Type 0 where
  pub type : Option Text
  pub id : Option Text
  pub value : V

-- A body that is not JSON, a falsy value, or any other.
pub data Parsed (V : Type 0) : Type 0 where
  bad nothing : Parsed V
  some_activity : Activity V → Parsed V

pub record Group (V : Type 0) : Type 0 where
  pub activity_by_id : Dict (Activity V)
  pub order : List Text
  pub by_diff_id : Dict (Activity V)

pub record Request : Type 0 where
  pub method : Text
  pub pathname : Outcome Text
  pub body : Text

pub data Body (V : Type 0) : Type 0 where
  health : ℕ → Body V
  sizes : Dict (ℕ × ℕ) → Body V
  error : Text → Body V
  accepted : Body V
  collection : (id : Text) → List (Activity V) → Body V
  activity : Activity V → Body V
  actor : (id preferred_username : Text) → Body V

-- A reply, or an exception that no handler catches.
pub data Reply (V : Type 0) : Type 0 where
  send_json : ℕ → Body V → Reply V
  uncaught : Text → Reply V

-- What a path names.
pub data Route : Type 0 where
  root debug unknown no_group : Route
  group : (nid : Text) → (sub : List Text) → Route

abbrev prefix : Text
prefix = str "/ap/v1/groups/"

drop : ℕ → Text → Text
drop zero s = s
drop (suc n) [] = []
drop (suc n) (c ∷ s) = drop n s

split : Text → List Text
split [] = [] ∷ []
split (c ∷ s) =
    if c == b'/'
    then [] ∷ split s
    else elim (split s) [ [] ↦ (c ∷ []) ∷ [] | p ∷ ps ↦ (c ∷ p) ∷ ps ]

is_empty : Text → Bool
is_empty [] = true
is_empty (c ∷ s) = false

group_of : List Text → Route
group_of [] = no_group
group_of (nid ∷ sub) = group nid sub

unfoldable pub route : Text → Route
unfolding drop split is_empty group_of starts_with ◌===◌
route path =
    if path === str "/" || path === str "/health"
    then root
    else if path === str "/debug/groups"
    then debug
    else if starts_with path prefix
    then group_of (filter (λ s. not (is_empty s)) (split (drop (length prefix) path)))
    else unknown

-- What stands before and behind the last slash.
last_slash : Text → Option (Text × Text)
last_slash [] = none
last_slash (c ∷ s) =
    let rest = last_slash s in
    elim rest [ some (a, b) ↦ some (c ∷ a, b) | none ↦ if c == b'/' then some ([], s) else none ]

ends_with : Text → Text → Bool
unfolding ◌===◌
ends_with [] p = [] === p
ends_with (c ∷ s) p = (c ∷ s) === p || ends_with s p

unfoldable pub text_of : Option Text → Text
text_of none = []
text_of (some t) = t

-- `/\/diffs\/([^/]+)$/`
unfoldable pub diff_id : Text → Option Text
unfolding last_slash ends_with
diff_id id = elim (last_slash id) [
  | none ↦ none
  | some (before, []) ↦ none
  | some (before, c ∷ s) ↦ if ends_with before (str "/diffs") then some (c ∷ s) else none
]

-- `id || "__anon-" + n`
id_or : Text → ℕ → Text
unfolding decimal
id_or [] n = str "__anon-" ++ decimal n
id_or (c ∷ id) n = c ∷ id

module _ {V : Type 0} where
  new_group : Group V
  new_group = record { activity_by_id = []; order = []; by_diff_id = [] }

  -- `groupFor`, which keeps a new group.
  unfoldable pub group_or_new : Option (Group V) → Group V
  unfolding new_group
  group_or_new none = new_group
  group_or_new (some g) = g

  unfoldable pub keep_group : Text → Dict (Group V) → Dict (Group V)
  unfolding group_or_new lookup insert
  keep_group nid groups = insert nid (group_or_new (lookup nid groups)) groups

  id_of : Group V → Activity V → Text
  unfolding text_of id_or
  id_of g a = id_or (text_of a.id) (length g.order)

  with_diff : Option Text → Activity V → Dict (Activity V) → Dict (Activity V)
  unfolding insert
  with_diff none a m = m
  with_diff (some d) a m = insert d a m

  add_activity : Text → Option (Activity V) → Activity V → Group V → Group V
  unfolding with_diff diff_id text_of insert
  add_activity id (some _) a g = g
  add_activity id none a g = record {
    activity_by_id = insert id a g.activity_by_id;
    order = g.order ++ id ∷ [];
    by_diff_id = with_diff (diff_id (text_of a.id)) a g.by_diff_id;
  }

  unfoldable pub reflect : Activity V → Group V → Group V
  unfolding add_activity id_of lookup
  reflect a g = add_activity (id_of g a) (lookup (id_of g a) g.activity_by_id) a g

  -- `g.order.map((id) => g.activityById.get(id)).filter(Boolean)`
  items_from : List Text → Dict (Activity V) → List (Activity V)
  unfolding lookup
  items_from [] m = []
  items_from (id ∷ ids) m =
      let rest = items_from ids m in elim (lookup id m) [ none ↦ rest | some a ↦ a ∷ rest ]

  unfoldable pub items : Group V → List (Activity V)
  unfolding items_from
  items g = items_from g.order g.activity_by_id

-- `type === "Follow"` or `"Undo"`: acknowledged, not handed on.
unfoldable pub is_content : Option Text → Bool
unfolding ◌===◌
is_content none = true
is_content (some t) = not (t === str "Follow" || t === str "Undo")

is_inbox : List Text → Bool
unfolding ◌===◌
is_inbox [] = false
is_inbox (sub ∷ rest) = sub === str "inbox"

module _ {V : Type 0} (parse : Text → Parsed V) (host : Text) (port : ℕ) where
  pub actor_url : Text → Text
  unfolding decimal
  actor_url nid = str "http://" ++ (host ++ (b':' ∷ (decimal port ++ (prefix ++ nid))))

  received : Text → Parsed V → Dict (Group V) → Dict (Group V) × Reply V
  unfolding reflect group_or_new is_content lookup insert
  received nid bad groups = (groups, send_json 400 (error (str "bad json")))
  received nid nothing groups = (groups, send_json 202 accepted)
  received nid (some_activity a) groups =
      if is_content a.type
      then (
        insert nid (reflect a (group_or_new (lookup nid groups))) groups,
        send_json 202 accepted,
      )
      else (groups, send_json 202 accepted)

  shown_diff : Option (Activity V) → Reply V
  shown_diff none = send_json 404 (error (str "unknown diff"))
  shown_diff (some a) = send_json 200 (activity a)

  diff_at : Text → List Text → Dict (Group V) → Dict (Group V) × Reply V
  unfolding keep_group group_or_new shown_diff lookup
  diff_at nid [] groups = (groups, send_json 404 (error (str "not found")))
  diff_at nid (d ∷ rest) groups =
      (keep_group nid groups, shown_diff (lookup d (group_or_new (lookup nid groups)).by_diff_id))

  shown_group : Text → List Text → Dict (Group V) → Dict (Group V) × Reply V
  unfolding keep_group group_or_new items diff_at actor_url lookup ◌===◌
  shown_group nid [] groups = (groups, send_json 200 (actor (actor_url nid) nid))
  shown_group nid (sub ∷ rest) groups =
      if sub === str "outbox"
      then (
        keep_group nid groups,
        send_json 200 (
            collection (actor_url nid ++ str "/outbox") (items (group_or_new (lookup nid groups)))),
      )
      else if sub === str "followers"
      then (groups, send_json 200 (collection (actor_url nid ++ str "/followers") []))
      else if sub === str "diffs"
      then diff_at nid rest groups
      else (groups, send_json 404 (error (str "not found")))

  on_route : Request → Route → Dict (Group V) → Dict (Group V) × Reply V
  unfolding received shown_group is_inbox ◌===◌
  on_route r root groups = (groups, send_json 200 (health (length groups)))
  on_route r debug groups = (
    groups,
    send_json 200 (sizes (map (λ e. (e.0, (length e.1.order, length e.1.by_diff_id))) groups)),
  )
  on_route r unknown groups = (groups, send_json 404 (error (str "not found")))
  on_route r no_group groups = (groups, send_json 404 (error (str "no group id")))
  on_route r (group nid sub) groups =
      if is_inbox sub && r.method === str "POST"
      then received nid (parse r.body) groups
      else if r.method === str "GET"
      then shown_group nid sub groups
      else (groups, send_json 405 (error (str "method not allowed")))

  on_path : Request → Outcome Text → Dict (Group V) → Dict (Group V) × Reply V
  unfolding on_route route
  on_path r (threw e) groups = (groups, uncaught e)
  on_path r (returned path) groups = on_route r (route path) groups

  unfoldable pub handle : Request → Dict (Group V) → Dict (Group V) × Reply V
  unfolding on_path
  handle r groups = on_path r r.pathname groups

  -- An exception that no handler catches ends the process, and with it the groups.
  unfoldable pub survived : Dict (Group V) × Reply V → Outcome (Dict (Group V))
  survived (groups, uncaught e) = threw e
  survived (groups, send_json status body) = returned groups

  -- The groups after these requests, while the process lives.
  unfoldable pub serve : List Request → Dict (Group V) → Outcome (Dict (Group V))
  unfolding handle survived ◌>>=◌
  serve [] groups = returned groups
  serve (r ∷ rs) groups = survived (handle r groups) >>= (λ groups. serve rs groups)
