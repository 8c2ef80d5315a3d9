-- ===== src/GroupShim/Outbox/Served.antt =====
-- infra/ap-group-shim.mjs: what the requests that are served do to the groups.
use ad4m_link_language_tests.Prelude.{
  Text, Dict, str, ℕ, ◌≡◌, ◌≢◌, refl, sym, ap, subst, ◌∙◌, All-left, All-right, true, false, ◌&&◌,
  inl, inr, All, Option, none, some, List, [], ◌∷◌, ◌++◌, ◌===◌, map, arith, text_iff, lookup,
  insert, lookup-insert, Bool-cases, append_assoc, append-nil,
}
use ad4m_link_language_tests.Prelude.Outcome.{Outcome, returned, threw, ◌>>=◌}
use ad4m_link_language_tests.GroupShim.{
  Activity, Parsed, bad, nothing, some_activity, Group, Request, Route, root, debug, unknown,
  no_group, group, route, text_of, new_group, group_or_new, keep_group, reflect, items, is_content,
  received, shown_group, is_inbox, on_route, on_path, handle, serve,
}
use ad4m_link_language_tests.GroupShim.Firsts.{firsts}
use ad4m_link_language_tests.GroupShim.{
  send_json, collection, actor_url, diff_at, shown_diff, survived,
}
use ad4m_link_language_tests.GroupShim.Outbox.{
  is_content-left_out, to_inbox, is_inbox-to_inbox, content_of, posted, delivered_to, delivered_by,
  deliveries, HaveIds, Holds, reflect-Holds, items-Holds,
}

-- A request whose URL can be read.
unfoldable pub HasUrl : Request → Type 0
HasUrl r = (path : Text) × (r.pathname ≡ returned path)

module _ {V : Type 0} (parse : Text → Parsed V) (host : Text) (port : ℕ) where
  -- The group `nid`, which may not be there yet, holds what was delivered to it.
  HoldsAt : Text → Dict (Activity V) → Dict (Group V) → Type 0
  HoldsAt nid log groups = Holds log (group_or_new (lookup nid groups))

  HoldsAt-insert :
      (nid n : Text) (log log' : Dict (Activity V)) (g : Group V) (groups : Dict (Group V))
      → (n ≡ nid → Holds log' g)
      → (n ≢ nid → Holds log' (group_or_new (lookup nid groups)))
      → HoldsAt nid log' (insert n g groups)
  unfolding HoldsAt group_or_new
  HoldsAt-insert nid n log log' g groups here away = elim (Bool-cases (n === nid)) [
    | inl e ↦ rw (lookup-insert n nid g groups) (rw e (here ((text_iff n nid).0 e)))
    | inr e ↦
        rw (lookup-insert n nid g groups) (rw e (away (λ q. ground (arith, e, text_iff n nid, q))))
  ]

  HoldsAt-keep_group :
      (nid n : Text) (log : Dict (Activity V)) (groups : Dict (Group V))
      → HoldsAt nid log groups
      → HoldsAt nid log (keep_group n groups)
  unfolding keep_group HoldsAt
  HoldsAt-keep_group nid n log groups h =
      HoldsAt-insert nid n log log (group_or_new (lookup n groups)) groups (λ e. rw e h) (λ _. h)

  diff_at-HoldsAt :
      (nid n : Text) (rest : List Text) (log : Dict (Activity V)) (groups : Dict (Group V))
      → HoldsAt nid log groups
      → HoldsAt nid log ((diff_at parse host port n rest groups).0)
  unfolding diff_at
  diff_at-HoldsAt nid n [] log groups h = h
  diff_at-HoldsAt nid n (d ∷ rest) log groups h = HoldsAt-keep_group nid n log groups h

  shown_group-HoldsAt :
      (nid n : Text) (sub : List Text) (log : Dict (Activity V)) (groups : Dict (Group V))
      → HoldsAt nid log groups
      → HoldsAt nid log ((shown_group parse host port n sub groups).0)
  unfolding shown_group
  shown_group-HoldsAt nid n [] log groups h = h
  shown_group-HoldsAt nid n (sub ∷ rest) log groups h = elim (Bool-cases (sub === str "outbox")) [
    | inl e ↦ rw e (HoldsAt-keep_group nid n log groups h)
    | inr e ↦ elim (Bool-cases (sub === str "followers")) [
      | inl f ↦ rw e (rw f h)
      | inr f ↦ elim (Bool-cases (sub === str "diffs")) [
        | inl d ↦ rw e (rw f (rw d (diff_at-HoldsAt nid n rest log groups h)))
        | inr d ↦ rw e (rw f (rw d h))
      ]
    ]
  ]

  HoldsAt-nothing :
      (nid : Text) (log : Dict (Activity V)) (groups : Dict (Group V))
      → HoldsAt nid log groups
      → HoldsAt nid (log ++ []) groups
  HoldsAt-nothing nid log groups h = rw (append-nil log) h

  posted-nothing :
      (nid n : Text) (p : Parsed V) → content_of parse p ≡ [] → posted parse nid n p ≡ []
  unfolding posted
  posted-nothing nid n p e = ground (arith, e)

  posted-here :
      (nid n : Text) (a : Activity V)
      → is_content a.type ≡ true
      → n ≡ nid
      → posted parse nid n (some_activity a) ≡ (text_of a.id, a) ∷ []
  unfolding posted content_of
  posted-here nid n a c e = ground (arith, c, is_content-left_out a.type, text_iff n nid, e)

  posted-away : (nid n : Text) (p : Parsed V) → n ≢ nid → posted parse nid n p ≡ []
  unfolding posted
  posted-away nid n p e = ground (arith, text_iff n nid, e)

  posted-refused :
      (nid n : Text) (a : Activity V)
      → is_content a.type ≡ false
      → posted parse nid n (some_activity a) ≡ []
  unfolding content_of
  posted-refused nid n a c =
      posted-nothing nid n (some_activity a) (ground (arith, c, is_content-left_out a.type))

  -- The activity joins the log of its own group only.
  reflected-HoldsAt :
      (nid n : Text) (a : Activity V) (log : Dict (Activity V)) (groups : Dict (Group V))
      → is_content a.type ≡ true
      → HaveIds (posted parse nid n (some_activity a))
      → HoldsAt nid log groups
      → HoldsAt nid
          (log ++ posted parse nid n (some_activity a))
          (insert n (reflect a (group_or_new (lookup n groups))) groups)
  unfolding HoldsAt
  reflected-HoldsAt nid n a log groups c ids h =
      HoldsAt-insert nid n log (log ++ posted parse nid n (some_activity a))
        (reflect a (group_or_new (lookup n groups))) groups
        (λ e.
          let id : HaveIds ((text_of a.id, a) ∷ []) = subst HaveIds (posted-here nid n a c e) ids in
          subst (λ l. Holds (log ++ l) (reflect a (group_or_new (lookup n groups))))
            (sym (posted-here nid n a c e))
            (reflect-Holds a (group_or_new (lookup n groups)) log (id.0)
              (subst (λ k. Holds log (group_or_new (lookup k groups))) (sym e) h)))
        (λ e. rw (posted-away nid n (some_activity a) e) (rw (append-nil log) h))

  received-HoldsAt :
      (nid n : Text) (p : Parsed V) (log : Dict (Activity V)) (groups : Dict (Group V))
      → HaveIds (posted parse nid n p)
      → HoldsAt nid log groups
      → HoldsAt nid (log ++ posted parse nid n p) ((received parse host port n p groups).0)
  unfolding received content_of
  received-HoldsAt nid n bad log groups ids h =
      rw (posted-nothing nid n bad refl) (HoldsAt-nothing nid log groups h)
  received-HoldsAt nid n nothing log groups ids h =
      rw (posted-nothing nid n nothing refl) (HoldsAt-nothing nid log groups h)
  received-HoldsAt nid n (some_activity a) log groups ids h =
      elim (Bool-cases (is_content a.type)) [
        | inl c ↦ rw c (reflected-HoldsAt nid n a log groups c ids h)
        | inr c ↦ rw c (rw (posted-refused nid n a c) (HoldsAt-nothing nid log groups h))
      ]

  on_route-HoldsAt :
      (nid : Text) (r : Request) (o : Route) (log : Dict (Activity V)) (groups : Dict (Group V))
      → HaveIds (delivered_to parse nid r o)
      → HoldsAt nid log groups
      → HoldsAt nid (log ++ delivered_to parse nid r o) ((on_route parse host port r o groups).0)
  unfolding on_route delivered_to
  on_route-HoldsAt nid r root log groups ids h = HoldsAt-nothing nid log groups h
  on_route-HoldsAt nid r debug log groups ids h = HoldsAt-nothing nid log groups h
  on_route-HoldsAt nid r unknown log groups ids h = HoldsAt-nothing nid log groups h
  on_route-HoldsAt nid r no_group log groups ids h = HoldsAt-nothing nid log groups h
  on_route-HoldsAt nid r (group n sub) log groups ids h =
      rw (is_inbox-to_inbox sub) (elim (Bool-cases (to_inbox sub && r.method === str "POST")) [
        | inl e ↦ rw e (received-HoldsAt nid n (parse r.body) log groups (rw e at ids) h)
        | inr e ↦ rw e (
            rw (append-nil log) (elim (Bool-cases (r.method === str "GET")) [
              | inl f ↦ rw f (shown_group-HoldsAt nid n sub log groups h)
              | inr f ↦ rw f h
            ]))
      ])

  on_path-HoldsAt :
      (nid : Text) (r : Request) (o : Outcome Text) (log : Dict (Activity V))
      (groups : Dict (Group V))
      → HaveIds (delivered_by parse nid r o)
      → HoldsAt nid log groups
      → HoldsAt nid (log ++ delivered_by parse nid r o) ((on_path parse host port r o groups).0)
  unfolding on_path delivered_by
  on_path-HoldsAt nid r (threw e) log groups ids h = HoldsAt-nothing nid log groups h
  on_path-HoldsAt nid r (returned path) log groups ids h =
      on_route-HoldsAt nid r (route path) log groups ids h

  -- Only a URL that cannot be read ends the process.
  shown_group-survived :
      (n : Text) (sub : List Text) (groups : Dict (Group V))
      → survived parse host port (shown_group parse host port n sub groups)
        ≡ returned ((shown_group parse host port n sub groups).0)
  unfolding shown_group
  shown_group-survived n [] groups = unfold survived in refl
  shown_group-survived n (sub ∷ rest) groups = elim (Bool-cases (sub === str "outbox")) [
    | inl e ↦ rw e (unfold survived in refl)
    | inr e ↦ elim (Bool-cases (sub === str "followers")) [
      | inl f ↦ rw e (rw f (unfold survived in refl))
      | inr f ↦ elim (Bool-cases (sub === str "diffs")) [
        | inl d ↦ rw e (rw f (rw d (at_diff rest)))
        | inr d ↦ rw e (rw f (rw d (unfold survived in refl)))
      ]
    ]
  ]
    where
      shown :
          (gs : Dict (Group V)) (o : Option (Activity V))
          → survived parse host port (gs, shown_diff parse host port o) ≡ returned gs
      shown gs none = unfold shown_diff survived in refl
      shown gs (some a) = unfold shown_diff survived in refl

      at_diff :
          (ids : List Text)
          → survived parse host port (diff_at parse host port n ids groups)
            ≡ returned ((diff_at parse host port n ids groups).0)
      at_diff [] = unfold diff_at survived in refl
      at_diff (d ∷ ids) = unfold diff_at in shown (keep_group n groups) _

  received-survived :
      (n : Text) (p : Parsed V) (groups : Dict (Group V))
      → survived parse host port (received parse host port n p groups)
        ≡ returned ((received parse host port n p groups).0)
  unfolding received survived
  received-survived n bad groups = refl
  received-survived n nothing groups = refl
  received-survived n (some_activity a) groups = elim (Bool-cases (is_content a.type)) [
    | inl c ↦ rw c refl
    | inr c ↦ rw c refl
  ]

  on_route-survived :
      (r : Request) (o : Route) (groups : Dict (Group V))
      → survived parse host port (on_route parse host port r o groups)
        ≡ returned ((on_route parse host port r o groups).0)
  unfolding on_route
  on_route-survived r root groups = unfold survived in refl
  on_route-survived r debug groups = unfold survived in refl
  on_route-survived r unknown groups = unfold survived in refl
  on_route-survived r no_group groups = unfold survived in refl
  on_route-survived r (group n sub) groups =
      elim (Bool-cases (is_inbox sub && r.method === str "POST")) [
        | inl e ↦ rw e (received-survived n (parse r.body) groups)
        | inr e ↦ elim (Bool-cases (r.method === str "GET")) [
          | inl f ↦ rw e (rw f (shown_group-survived n sub groups))
          | inr f ↦ rw e (rw f (unfold survived in refl))
        ]
      ]

  handle-survived :
      (r : Request) (path : Text) (groups : Dict (Group V))
      → r.pathname ≡ returned path
      → survived parse host port (handle parse host port r groups)
        ≡ returned ((handle parse host port r groups).0)
  unfolding handle on_path
  handle-survived r path groups at = rw at (on_route-survived r (route path) groups)

  serve-HoldsAt :
      (nid : Text) (rs : List Request) (log : Dict (Activity V)) (groups : Dict (Group V))
      → All HasUrl rs
      → HaveIds (deliveries parse nid rs)
      → HoldsAt nid log groups
      → (after : Dict (Group V)) × (serve parse host port rs groups ≡ returned after)
        × HoldsAt nid (log ++ deliveries parse nid rs) after
  unfolding serve handle deliveries ◌>>=◌ HasUrl
  serve-HoldsAt nid [] log groups urls ids h = (groups, refl, HoldsAt-nothing nid log groups h)
  serve-HoldsAt nid (r ∷ rs) log groups ((path, at), urls) ids h =
      let now = delivered_by parse nid r r.pathname in
      let later = deliveries parse nid rs in
      let next = (on_path parse host port r r.pathname groups).0 in
      let (after, lives, holds) =
        serve-HoldsAt nid rs (log ++ now) next urls (All-right (λ e. e.0 ≢ []) now later ids) (
          on_path-HoldsAt nid r r.pathname log groups (All-left (λ e. e.0 ≢ []) now later ids) h) in
      (
        after,
        ap (λ o. o >>= (λ gs. serve parse host port rs gs)) (handle-survived r path groups at)
            ∙ lives,
        rw (sym (append_assoc log now later)) holds,
      )

  HoldsAt-start : (nid : Text) → HoldsAt nid [] []
  unfolding HoldsAt Holds group_or_new new_group lookup firsts
  HoldsAt-start nid = (refl, refl)

  outbox_reply :
      (nid : Text) (r : Request) (groups : Dict (Group V))
      → r.method ≡ str "GET"
      → (on_route parse host port r (group nid (str "outbox" ∷ [])) groups).1
        ≡ send_json 200 (
            collection
              (actor_url parse host port nid ++ str "/outbox")
              (items (group_or_new (lookup nid groups))))
  unfolding on_route shown_group is_inbox ◌===◌
  outbox_reply nid r groups get = rw get refl

  -- After any requests whose URLs can be read, the server lives, and the outbox of a group serves the
  -- activities that were posted to its inbox, Follow and Undo left out, in the order in which they
  -- came: of those with one id only the first, and none of another group. This takes the posted
  -- activities to have ids.
  pub outbox-deliveries :
      (nid path : Text) (rs : List Request) (r : Request)
      → All HasUrl rs
      → HaveIds (deliveries parse nid rs)
      → r.method ≡ str "GET"
      → r.pathname ≡ returned path
      → route path ≡ group nid (str "outbox" ∷ [])
      → (groups : Dict (Group V)) × (serve parse host port rs [] ≡ returned groups)
        × ((handle parse host port r groups).1
            ≡ send_json 200 (
                collection
                  (actor_url parse host port nid ++ str "/outbox")
                  (map (λ e. e.1) (firsts (deliveries parse nid rs)))))
  unfolding handle on_path HoldsAt
  outbox-deliveries nid path rs r urls ids get at there =
      let (groups, lives, holds) = serve-HoldsAt nid rs [] [] urls ids (HoldsAt-start nid) in
      (
        groups,
        lives,
        rw at (
            rw there (
              outbox_reply nid r groups get
              ∙ ap
                  (λ l.
                    send_json 200 (collection (actor_url parse host port nid ++ str "/outbox") l))
                  (items-Holds (group_or_new (lookup nid groups)) (deliveries parse nid rs)
                    holds))),
      )
