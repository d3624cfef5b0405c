-- ===== src/RemoteConfig/Load.antt =====
-- Which configuration Load returns.
use proxmoxvue_agent.Base.{
  ℕ, ◌≡◌, refl, sym, ap, ◌∙◌, true, false, Option, List, [], ◌∷◌, arith, is_empty,
}
use proxmoxvue_agent.Base.Program.{Event, World, run}
use proxmoxvue_agent.Base.Int.{pos, int_eq}
use proxmoxvue_agent.Base.Failure.{Failure, Result, ok, err}
use proxmoxvue_agent.Json.{Json, RawMessage}
use proxmoxvue_agent.Base.Ledger.{Ends, run-Ends}
use proxmoxvue_agent.RemoteConfig.{
  Config, Source, source_live, source_cache, source_baked_in, Fetched, not_fetched, response, Call,
  Reply, fetch, read_file, write_cache, decode_config, check_live, check_cached, live_of, cached_of,
  after_cache, after_live, load, baked_in_default, bind_result,
}

abbrev pub Events : Type 0
Events = List (Event Call Reply)

bind_result-inv :
    {A B : Type 0} (r : Result A) (f : A → Result B) (b : B)
    → bind_result r f ≡ ok b
    → (a : A) × (r ≡ ok a) × (f a ≡ ok b)
bind_result-inv (ok a) f b h = (a, refl, h)
bind_result-inv (err e) f b h = absurd (ground arith)

module _ (time_of : Json → Result ℕ) where
  -- An answer with status 200 whose body is a configuration of version 1 with an address and a key.
  pub data IsLive (cfg : Config) : Fetched → Type 0 where
    live :
        {status : ℕ} (json : Result RawMessage)
        → status ≡ 200
        → decode_config time_of json ≡ ok cfg
        → int_eq cfg.schema_version (pos 1) ≡ true
        → is_empty cfg.supabase_base_url ≡ false
        → is_empty cfg.supabase_publishable_key ≡ false
        → IsLive cfg (response status json)

  check_live-inv :
      (cfg : Config) (c : Config)
      → check_live time_of c ≡ ok cfg
      → (c ≡ cfg)
        × (int_eq cfg.schema_version (pos 1) ≡ true)
        × (is_empty cfg.supabase_base_url ≡ false)
        × (is_empty cfg.supabase_publishable_key ≡ false)
  unfolding check_live
  check_live-inv cfg c h =
      let (same, version, url, key) : (c ≡ cfg)
          × (int_eq c.schema_version (pos 1) ≡ true)
          × (is_empty c.supabase_base_url ≡ false)
          × (is_empty c.supabase_publishable_key ≡ false) =
        ground arith in
      (same, rw (sym same) version, rw (sym same) url, rw (sym same) key)

  check_cached-inv :
      (cfg : Config) (c : Config)
      → check_cached time_of c ≡ ok cfg
      → (c ≡ cfg) × (int_eq cfg.schema_version (pos 1) ≡ true)
  unfolding check_cached
  check_cached-inv cfg c h =
      let (same, version) : (c ≡ cfg) × (int_eq c.schema_version (pos 1) ≡ true) = ground arith in
      (same, rw (sym same) version)

  live_of-IsLive : (x : Fetched) (cfg : Config) → live_of time_of x ≡ ok cfg → IsLive cfg x
  unfolding live_of
  live_of-IsLive (not_fetched e) cfg h = absurd (ground arith)
  live_of-IsLive (response status json) cfg h =
      let (fine, bound) : (status ≡ 200)
          × (bind_result (decode_config time_of json) (check_live time_of) ≡ ok cfg) =
        ground arith in
      let (c, read, checked) =
        bind_result-inv (decode_config time_of json) (check_live time_of) cfg bound in
      let (same, version, url, key) = check_live-inv cfg c checked in
      live json fine (read ∙ ap ok same) version url key

  -- What a run of Load is.
  pub data Loaded : Config × Source → Events → Type 0 where
    -- The answer is good; the cache is written, and an error in that is dropped.
    from_live :
        {x : Fetched} {cfg : Config} (saved : Option Failure)
        → IsLive cfg x
        → Loaded (cfg, source_live) ((write_cache cfg, saved) ∷ (fetch, x) ∷ [])
    -- No good answer, but a file of version 1; its address and key are not looked at.
    from_cache :
        {x : Fetched} {file : Result RawMessage} {cfg : Config} (e : Failure)
        → live_of time_of x ≡ err e
        → decode_config time_of file ≡ ok cfg
        → int_eq cfg.schema_version (pos 1) ≡ true
        → Loaded (cfg, source_cache) ((read_file, file) ∷ (fetch, x) ∷ [])
    from_nothing :
        {x : Fetched} {file : Result RawMessage} (e e' : Failure)
        → live_of time_of x ≡ err e
        → cached_of time_of file ≡ err e'
        → Loaded (baked_in_default, source_baked_in) ((read_file, file) ∷ (fetch, x) ∷ [])

  after_cache-Loaded :
      (x : Fetched) (file : Result RawMessage) (e : Failure) (r : Result Config)
      → live_of time_of x ≡ err e
      → cached_of time_of file ≡ r
      → Ends Loaded ((read_file, file) ∷ (fetch, x) ∷ []) (after_cache time_of r)
  unfolding after_cache cached_of
  after_cache-Loaded x file e (err e') dead same = from_nothing e e' dead same
  after_cache-Loaded x file e (ok cfg) dead same =
      let (c, read, checked) =
        bind_result-inv (decode_config time_of file) (check_cached time_of) cfg same in
      let (eq, version) = check_cached-inv cfg c checked in
      from_cache e dead (read ∙ ap ok eq) version

  after_live-Loaded :
      (x : Fetched) (r : Result Config)
      → live_of time_of x ≡ r
      → Ends Loaded ((fetch, x) ∷ []) (after_live time_of r)
  unfolding after_live
  after_live-Loaded x (ok cfg) same = λ saved. from_live saved (live_of-IsLive x cfg same)
  after_live-Loaded x (err e) same =
      λ file. after_cache-Loaded x file e (cached_of time_of file) same refl

  -- In every world Load returns the configuration of a good live answer, and then it has written it to
  -- the cache; else that of a cache file of version 1; else the built-in one. It asks the backend
  -- once, and looks at the file only if the answer is no good.
  pub load-Loaded : (w : World Call Reply) → let (r, t) = run w [] (load time_of) in Loaded r t
  unfolding load
  load-Loaded w =
      run-Ends Loaded w [] (load time_of) (λ x. after_live-Loaded x (live_of time_of x) refl)
