-- ===== src/WebrtcRun/Live.antt =====
-- src/run-webrtc.ts: a run with a scenario that needs the executor, and its results.
use ad4m_link_language_tests.WebrtcRun
use ad4m_link_language_tests.WebrtcRun.Arguments.{Args, parse_args}
use ad4m_link_language_tests.WebrtcRun.Picks.{pick, is_live}
use ad4m_link_language_tests.Scenario.{ScenarioResult, plain}
use ad4m_link_language_tests.Prelude.Outcome.{
  Outcome, returned, threw, ◌>>=◌, bind-returned, returned_inj,
}
use ad4m_link_language_tests.Prelude.{
  Text, str, ◌++◌, ℕ, zero, suc, ◌+◌, Bool, true, false, Option, none, some, List, [], ◌∷◌, any,
  length, get_elem?, ◌≡◌, ◌≢◌, refl, sym, ap, ◌∙◌, ◌⊎◌, inl, inr, arith,
}

-- The result that a scenario which ended this way has in the run.
unfoldable pub Reports : Text → Outcome ScenarioResult → ScenarioResult → Type 0
Reports id (returned r) s = s ≡ r
Reports id (threw e) s =
    (s.scenario ≡ id)
    × (s.passed ≡ false)
    × (s.summary ≡ str "FAILED: " ++ e)
    × (s.metrics ≡ (str "error", plain e) ∷ [])

module _ (w : WebrtcRun.World) where
  -- The client has a token, it connected, and the executor reported no error.
  pub IsConnected : WebrtcRun.Connection → Type 0
  IsConnected c =
      (c.token ≢ [])
      × (w.connects c ≡ returned tt)
      × ((w.health c ≡ returned none) ⊎ (w.health c ≡ returned (some [])))

  checked-well :
      (c d : WebrtcRun.Connection) (health : Option Text)
      → WebrtcRun.checked w c health ≡ returned d
      → (d ≡ c) × ((health ≡ none) ⊎ (health ≡ some []))
  unfolding WebrtcRun.checked
  checked-well c d none h =
      let (_, _, same) = bind-returned (w.generates c) (λ _. returned c) d h in
      (ground (arith, same), inl refl)
  checked-well c d (some []) h =
      let (_, _, same) = bind-returned (w.generates c) (λ _. returned c) d h in
      (ground (arith, same), inr refl)
  checked-well c d (some (e ∷ es)) h = absurd (ground (arith, h))

  connected-IsConnected :
      (c d : WebrtcRun.Connection)
      → c.token ≢ []
      → WebrtcRun.connected w c ≡ returned d
      → IsConnected d
  unfolding WebrtcRun.connected IsConnected
  connected-IsConnected c d given h =
      let (u, connects, h1) =
        bind-returned (w.connects c) (λ _. w.health c >>= WebrtcRun.checked w c) d h in
      let (health, answered, h2) = bind-returned (w.health c) (WebrtcRun.checked w c) d h1 in
      let (same, well) = checked-well c d health h2 in
      rw same (
        given,
        connects,
        elim well [
          | inl e ↦ inl (answered ∙ ap returned e)
          | inr e ↦ inr (answered ∙ ap returned e)
        ],
      )

  with_token-IsConnected :
      (url : Text) (token : Option Text) (c : WebrtcRun.Connection)
      → WebrtcRun.with_token w url token ≡ returned c
      → IsConnected c
  unfolding WebrtcRun.with_token
  with_token-IsConnected url none c h = absurd (ground (arith, h))
  with_token-IsConnected url (some []) c h = absurd (ground (arith, h))
  with_token-IsConnected url (some (x ∷ t)) c h =
      let of_port : Option ℕ → WebrtcRun.Connection =
        λ p. record { port = WebrtcRun.or_port p; token = x ∷ t } in
      let (p, _, h1) =
        bind-returned (w.url_port url) (λ p. WebrtcRun.connected w (of_port p)) c h in
      connected-IsConnected (of_port p) c (λ e. ground (arith, e)) h1

  -- Each scenario is run once, in order.
  run_from-get_elem? :
      (ctx : WebrtcRun.Context) (j k i : ℕ) (ids : List Text) (id : Text)
      → k ≡ j + i
      → get_elem? ids i ≡ some id
      → get_elem? (WebrtcRun.run_from w ctx j ids) i
        ≡ some (WebrtcRun.result_of w ctx.branch k id (w.runs ctx id k))
  unfolding WebrtcRun.run_from
  run_from-get_elem? ctx j k i [] id at h = absurd (ground (arith, h))
  run_from-get_elem? ctx j k zero (x ∷ ids) id at h =
      let here : j ≡ k = omega (arith, at) in
      let same : x ≡ id = ground (arith, h) in rw (here, same)
  run_from-get_elem? ctx j k (suc i) (x ∷ ids) id at h =
      run_from-get_elem? ctx (suc j) k i ids id (omega (arith, at)) h

  length-run_from :
      (ctx : WebrtcRun.Context) (j : ℕ) (ids : List Text)
      → length (WebrtcRun.run_from w ctx j ids) ≡ length ids
  unfolding WebrtcRun.run_from
  length-run_from ctx j [] = refl
  length-run_from ctx j (x ∷ ids) = ap suc (length-run_from ctx (suc j) ids)

  run_all-results :
      (a : Args) (ids : List Text) (client : Option WebrtcRun.Connection) (d : WebrtcRun.Finished)
      → WebrtcRun.run_all w a ids client ≡ returned d
      → (port : Option ℕ) × (d.results
          ≡ WebrtcRun.run_from w (WebrtcRun.context w a client port) 0 ids)
  unfolding WebrtcRun.run_all WebrtcRun.finished
  run_all-results a ids client d h =
      let runs : Option ℕ → List ScenarioResult =
        λ port. WebrtcRun.run_from w (WebrtcRun.context w a client port) 0 ids in
      let (port, _, h1) =
        bind-returned (WebrtcRun.context_port w a.executor_url)
          (λ port.
            WebrtcRun.disconnected w client
            >>= (λ _. returned (WebrtcRun.finished w a (runs port))))
          d h in
      let (_, _, h2) =
        bind-returned (WebrtcRun.disconnected w client)
          (λ _. returned (WebrtcRun.finished w a (runs port))) d h1 in
      (port, ap (λ f. f.results) (sym (returned_inj (WebrtcRun.finished w a (runs port)) d h2)))

  run_all-with :
      (a : Args) (ids : List Text) (c : WebrtcRun.Connection) (o : Option WebrtcRun.Connection)
      (d : WebrtcRun.Finished)
      → o ≡ some c
      → WebrtcRun.run_all w a ids o ≡ returned d
      → (port : Option ℕ) × (d.results
          ≡ WebrtcRun.run_from w (WebrtcRun.context w a (some c) port) 0 ids)
  run_all-with a ids c o d is_c h = run_all-results a ids (some c) d (rw is_c at h)

  client_for-IsConnected :
      (a : Args) (live : Bool) (o : Option WebrtcRun.Connection)
      → live ≡ true
      → WebrtcRun.client_for w a live ≡ returned o
      → (c : WebrtcRun.Connection) × (o ≡ some c) × IsConnected c
  unfolding WebrtcRun.client_for
  client_for-IsConnected a false o is_live h = absurd (ground (arith, is_live))
  client_for-IsConnected a true o is_live h =
      let token = WebrtcRun.or_else a.executor_token w.ad4m_admin_token in
      let (c, given, h1) =
        bind-returned (WebrtcRun.with_token w (WebrtcRun.the_url w a) token)
          (λ c. returned (some c)) o h in
      (c, ground (arith, h1), with_token-IsConnected (WebrtcRun.the_url w a) token c given)

  run_picked-live :
      (a : Args) (ids : List Text) (d : WebrtcRun.Finished)
      → WebrtcRun.run_picked w a ids ≡ returned d
      → any is_live ids ≡ true
      → (c : WebrtcRun.Connection) × (port : Option ℕ) × IsConnected c
        × (d.results ≡ WebrtcRun.run_from w (WebrtcRun.context w a (some c) port) 0 ids)
  unfolding WebrtcRun.run_picked
  run_picked-live a [] d h live = absurd (ground (arith, h))
  run_picked-live a (x ∷ ids) d h live =
      let (_, _, h1) =
        bind-returned (w.make_dir a.results_dir)
          (λ _.
            WebrtcRun.client_for w a (any is_live (x ∷ ids)) >>= WebrtcRun.run_all w a (x ∷ ids))
          d h in
      let (o, opened, h2) =
        bind-returned (WebrtcRun.client_for w a (any is_live (x ∷ ids)))
          (WebrtcRun.run_all w a (x ∷ ids)) d h1 in
      let (c, is_c, well) = client_for-IsConnected a (any is_live (x ∷ ids)) o live opened in
      let (port, results) = run_all-with a (x ∷ ids) c o d is_c h2 in (c, port, well, results)

  result_of-Reports :
      (label : Option Text) (i : ℕ) (id : Text) (o : Outcome ScenarioResult)
      → Reports id o (WebrtcRun.result_of w label i id o)
  unfolding Reports WebrtcRun.result_of
  result_of-Reports label i id (returned r) = refl
  result_of-Reports label i id (threw e) = (refl, refl, refl, refl)

  -- When a picked scenario needs an executor and the run is not ended with status 1, then the client
  -- has a token, connected to the executor and found no error in its health; there is one result for
  -- each picked scenario, in order, and each is what the scenario returned when run with this client
  -- and the run's label, or, when it threw, a result that has not passed, with the scenario's id,
  -- and the message that it threw in the summary and as the one metric.
  pub main-live :
      (argv : List Text) (d : WebrtcRun.Finished) (i : ℕ) (id : Text)
      → WebrtcRun.main w argv ≡ returned d
      → any is_live (pick (parse_args w.default_label argv).ids) ≡ true
      → get_elem? (pick (parse_args w.default_label argv).ids) i ≡ some id
      → (c : WebrtcRun.Connection) × (ctx : WebrtcRun.Context) × (r : ScenarioResult) × IsConnected
          c
        × (ctx.client ≡ some c)
        × (ctx.branch ≡ (parse_args w.default_label argv).label)
        × (length d.results ≡ length (pick (parse_args w.default_label argv).ids))
        × (get_elem? d.results i ≡ some r)
        × Reports id (w.runs ctx id i) r
  unfolding WebrtcRun.main WebrtcRun.context
  main-live argv d i id h live at_i =
      let a = parse_args w.default_label argv in
      let (c, port, well, results) = run_picked-live a (pick a.ids) d h live in
      let ctx = WebrtcRun.context w a (some c) port in
      (
        c,
        ctx,
        WebrtcRun.result_of w ctx.branch i id (w.runs ctx id i),
        well,
        refl,
        refl,
        ap length results ∙ length-run_from ctx 0 (pick a.ids),
        ap (λ rs. get_elem? rs i) results
            ∙ run_from-get_elem? ctx 0 i i (pick a.ids) id (omega arith) at_i,
        result_of-Reports ctx.branch i id (w.runs ctx id i),
      )
