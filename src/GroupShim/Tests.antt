-- ===== src/GroupShim/Tests.antt =====
-- Two activities posted to one group, the first of them twice, and one to another group.
use ad4m_link_language_tests.Prelude.{
  Text, Dict, All, str, ℕ, ◌≡◌, refl, none, some, List, [], ◌∷◌, ◌++◌, ◌===◌, map, starts_with,
  if◌then◌else◌, arith,
}
use ad4m_link_language_tests.Prelude.Outcome.{returned}
use ad4m_link_language_tests.GroupShim.{
  Group, Parsed, bad, some_activity, Request, route, diff_id, send_json, collection, actor_url,
  handle, serve, text_of,
}
use ad4m_link_language_tests.GroupShim.Firsts.{firsts}
use ad4m_link_language_tests.GroupShim.Outbox.{HaveIds, deliveries}
use ad4m_link_language_tests.GroupShim.Outbox.Served.{HasUrl, outbox-deliveries}

unfoldable parse : Text → Parsed ℕ
parse t =
    if t === str "one"
    then some_activity
        (record { type = some (str "Create"); id = some (str "a/diffs/1"); value = 1 })
    else if t === str "two"
    then some_activity (record { type = none; id = some (str "b/diffs/2"); value = 2 })
    else if t === str "follow"
    then some_activity (record { type = some (str "Follow"); id = none; value = 3 })
    else bad

abbrev post : Text → Text → Request
post path body = record { method = str "POST"; pathname = returned path; body = body }

abbrev get_outbox : Request
get_outbox = record {
  method = str "GET";
  pathname = returned (str "/ap/v1/groups/g/outbox");
  body = [];
}

abbrev posts : List Request
posts =
    post (str "/ap/v1/groups/g/inbox") (str "one")
    ∷ post (str "/ap/v1/groups/h/inbox") (str "two")
    ∷ post (str "/ap/v1/groups/g/inbox") (str "follow")
    ∷ post (str "/ap/v1/groups/g/inbox") (str "two")
    ∷ post (str "/ap/v1/groups/g/inbox") (str "one")
    ∷ []

posts-HaveIds : HaveIds (deliveries parse (str "g") posts)
unfolding deliveries parse route text_of starts_with ◌===◌
posts-HaveIds = (λ e. ground (arith, e), (λ e. ground (arith, e), (λ e. ground (arith, e), tt)))

served-values : map (λ e. e.1.value) (firsts (deliveries parse (str "g") posts)) ≡ 1 ∷ 2 ∷ []
unfolding firsts deliveries parse route text_of starts_with ◌===◌
served-values = refl

diff_id-runs : diff_id (str "a/diffs/1") ≡ some (str "1")
unfolding diff_id ◌===◌
diff_id-runs = refl

posts-HasUrl : All HasUrl posts
unfolding HasUrl
posts-HasUrl = ((_, refl), ((_, refl), ((_, refl), ((_, refl), ((_, refl), tt)))))

outbox-deliveries_example :
    (groups : Dict (Group ℕ)) × (serve parse (str "h") 80 posts [] ≡ returned groups)
    × ((handle parse (str "h") 80 get_outbox groups).1
        ≡ send_json 200 (
            collection
              (actor_url parse (str "h") 80 (str "g") ++ str "/outbox")
              (map (λ e. e.1) (firsts (deliveries parse (str "g") posts)))))
unfolding route starts_with ◌===◌
outbox-deliveries_example =
    outbox-deliveries parse (str "h") 80 (str "g") (str "/ap/v1/groups/g/outbox") posts get_outbox
      posts-HasUrl posts-HaveIds refl refl refl
