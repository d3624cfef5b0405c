-- ===== src/CommandLine/Register/Merge.antt =====
-- What registering again keeps of the settings.
use proxmoxvue_agent.Base.{
  ℕ, ◌≡◌, refl, sym, ap, ◌∙◌, Bool, true, false, not, ◌&&◌, ◌||◌, Option, none, some, [], ◌∷◌,
  arith, Bytes, codes, is_empty, if-cases, if-split,
}
use proxmoxvue_agent.Base.Program.{call, World, run}
use proxmoxvue_agent.Base.Failure.{Failure, Result, ok, err}
use proxmoxvue_agent.Base.Ledger.{Ends, Ends-bind, run-Ends}
use proxmoxvue_agent.Config.Storage.{File}
use proxmoxvue_agent.Config.Agent.{ensure_defaults}
use proxmoxvue_agent.Enroll.{Options, Enrolled, enrolled}
use proxmoxvue_agent.KeySync.{KeyBytes}
use proxmoxvue_agent.Base64
use proxmoxvue_agent.CommandLine.Register.{
  Loaded, loaded, missing, broken, Call, Reply, post_enroll, load, save, generate_keypair,
  new_client, upload_public_key, is_stdin_tty, ask, read_line, fill, is_filled, is_fresh,
  with_proxmox, ask_verify, prompt_proxmox_config, empty_file, merged, keyed, exit_saved,
  after_prompt, after_tty, after_upload, after_client, after_key_saved, after_key, after_save,
  write_merged, has_bad_level, after_load, after_enroll, run_register,
}
use proxmoxvue_agent.CommandLine.Register.Kept.{
  Events, Kept, Keeps, Read, just_read, not_there, before, Safe, at_first, other, saves,
}

module _ (quote : Bytes → Bytes) (path : Bytes) (f : File) where
  -- So far all is well, and the settings were read from the file.
  abbrev Well : Events → Type 0
  Well t = Safe path t × Read path f t

  -- Settings with which nothing but Supabase's block and the defaults has changed.
  record Same (g : File) : Type 0 where
    private_key : Kept f.supabase.private_key g.supabase.private_key
    proxmox : g.proxmox ≡ f.proxmox
    agent : g.agent ≡ (ensure_defaults f.agent).0

  Same-Keeps : (g : File) → Same g → Keeps f g
  Same-Keeps g h = record {
    private_key = h.private_key;
    api_url = λ there. ap (λ p. p.api_url) h.proxmox;
    api_token_id = λ there. ap (λ p. p.api_token_id) h.proxmox;
    api_token_secret = λ there. ap (λ p. p.api_token_secret) h.proxmox;
    verify_tls = λ old. ap (λ p. p.verify_tls) h.proxmox;
    agent = h.agent;
  }

  abbrev Ended : Option ℕ → Events → Type 0
  Ended out t = Safe path t

  saved :
      (g : File) (t : Events) (r : Option Failure)
      → Well t
      → Keeps f g
      → Safe path ((save path g, r) ∷ t)
  saved g t r (safe, same) keeps = saves f g r safe same keeps

  fill-Kept :
      (old prompt : Bytes) (t : Events)
      → Well t
      → Ends (λ v t'. Kept old v × Well t') t (fill old prompt)
  unfolding fill read_line
  fill-Kept old prompt t (safe, same) =
      if-split (Ends (λ v t'. Kept old v × Well t') t) (is_empty old)
        (λ blank line. (
          λ there. absurd (ground arith),
          (other (ask prompt) line refl safe, before (ask prompt) line refl same),
        ))
        (λ there. (λ h. refl, (safe, same)))

  ask_verify-same :
      (asks verify : Bool) (t : Events)
      → Well t
      → Ends (λ v t'. (asks ≡ false → v ≡ verify) × Well t') t (ask_verify asks verify)
  unfolding ask_verify read_line
  ask_verify-same true verify t (safe, same) = λ line. (
    λ h. absurd (ground arith),
    (
      other (ask (codes "  verify_tls (y/N) [N for self-signed homelab certs]: ")) line refl safe,
      before (ask (codes "  verify_tls (y/N) [N for self-signed homelab certs]: ")) line refl same,
    ),
  )
  ask_verify-same false verify t well = (λ h. refl, well)

  prompted-Keeps :
      (g : File) (url id secret : Bytes) (changed verify : Bool)
      → Same g
      → Kept g.proxmox.api_url url
      → Kept g.proxmox.api_token_id id
      → Kept g.proxmox.api_token_secret secret
      → (is_fresh g && changed ≡ false → verify ≡ g.proxmox.verify_tls)
      → Keeps f (with_proxmox g url id secret verify)
  prompted-Keeps g url id secret changed verify h kept_url kept_id kept_secret kept_verify =
      record {
        private_key = h.private_key;
        api_url = λ there.
            let same = ap (λ p. p.api_url) h.proxmox in kept_url (ap is_empty same ∙ there) ∙ same;
        api_token_id = λ there.
            let same = ap (λ p. p.api_token_id) h.proxmox in
            kept_id (ap is_empty same ∙ there) ∙ same;
        api_token_secret = λ there.
            let same = ap (λ p. p.api_token_secret) h.proxmox in
            kept_secret (ap is_empty same ∙ there) ∙ same;
        verify_tls = λ old.
            let fresh : is_fresh g ≡ is_fresh f =
              ap (λ p. is_empty p.api_url && is_empty p.api_token_id && is_empty p.api_token_secret)
                h.proxmox in
            kept_verify (ap (λ b. b && changed) (fresh ∙ old)) ∙ ap (λ p. p.verify_tls) h.proxmox;
        agent = h.agent;
      }

  prompt_proxmox_config-Keeps :
      (g : File) (t : Events)
      → Well t
      → Same g
      → Ends (λ out t'. Keeps f out.0 × Well t') t (prompt_proxmox_config g)
  unfolding prompt_proxmox_config
  prompt_proxmox_config-Keeps g t well h =
      Ends-bind (λ v t'. Kept g.proxmox.api_url v × Well t') Out t
        (fill g.proxmox.api_url (codes "  api_url (e.g. https://pve.example.com:8006): ")) _
        (fill-Kept g.proxmox.api_url _ t well)
        λ url t (kept_url, well).
          Ends-bind (λ v t'. Kept g.proxmox.api_token_id v × Well t') Out t
            (fill g.proxmox.api_token_id (codes "  api_token_id (e.g. root@pam!claude): ")) _
            (fill-Kept g.proxmox.api_token_id _ t well)
            λ id t (kept_id, well).
              Ends-bind (λ v t'. Kept g.proxmox.api_token_secret v × Well t') Out t
                (fill g.proxmox.api_token_secret (codes "  api_token_secret (uuid): ")) _
                (fill-Kept g.proxmox.api_token_secret _ t well)
                λ secret t (kept_secret, well).
                  let changed =
                    is_filled g.proxmox.api_url url
                    || is_filled g.proxmox.api_token_id id
                    || is_filled g.proxmox.api_token_secret secret in
                  Ends-bind
                    (λ v t'. (is_fresh g && changed ≡ false → v ≡ g.proxmox.verify_tls) × Well t')
                    Out t (ask_verify (is_fresh g && changed) g.proxmox.verify_tls) _
                    (ask_verify-same (is_fresh g && changed) g.proxmox.verify_tls t well)
                    λ verify t (kept_verify, well). (
                      prompted-Keeps g url id secret changed verify h kept_url kept_id kept_secret
                          kept_verify,
                      well,
                    )
    where
      Out : File × Bool → Events → Type 0
      Out out t' = Keeps f out.0 × Well t'

  exit_saved-Ended :
      (t : Events) (r : Option Failure) → Safe path t → Ends Ended t (exit_saved quote path r)
  exit_saved-Ended t none safe = safe
  exit_saved-Ended t (some e) safe = safe

  after_prompt-Ended :
      (out : File × Bool) (t : Events)
      → Keeps f out.0 × Well t
      → Ends Ended t (after_prompt quote path out)
  unfolding after_prompt
  after_prompt-Ended (g, changed) t (keeps, well) =
      if-cases (Ends Ended t) changed (λ r. exit_saved-Ended _ r (saved g t r well keeps)) well.0

  after_upload-Ended :
      (g : File) (t : Events) (r : Option (Option Failure))
      → Well t
      → Same g
      → Ends Ended t (after_upload quote path g r)
  unfolding after_upload after_tty
  after_upload-Ended g t none well h = well.0
  after_upload-Ended g t (some failed) (safe, same) h =
      if-cases (Ends Ended t) (is_empty g.proxmox.api_url || is_empty g.proxmox.api_token_secret)
        (λ tty.
          let t' : Events = (is_stdin_tty, tty) ∷ t in
          let well' : Well t' =
            (other is_stdin_tty tty refl safe, before is_stdin_tty tty refl same) in
          if-cases (Ends Ended t') tty
            (Ends-bind (λ out t''. Keeps f out.0 × Well t'') Ended t' (prompt_proxmox_config g)
              (after_prompt quote path) (prompt_proxmox_config-Keeps g t' well' h)
              after_prompt-Ended)
            well'.0)
        safe

  after_client-Ended :
      (g : File) (t : Events) (r : Option Failure)
      → Well t
      → Same g
      → Ends Ended t (after_client quote path g r)
  unfolding after_client
  after_client-Ended g t (some e) well h = well.0
  after_client-Ended g t none (safe, same) h = λ r.
      after_upload-Ended g _ r
        (
          other (upload_public_key g.supabase.cluster_id g.supabase.private_key) r refl safe,
          before (upload_public_key g.supabase.cluster_id g.supabase.private_key) r refl same,
        )
        h

  with_client-Ended :
      (g : File) (t : Events)
      → Well t
      → Same g
      → Ends Ended t (call (new_client g.supabase.refresh_token) (after_client quote path g))
  with_client-Ended g t (safe, same) h = λ r.
      after_client-Ended g _ r
        (
          other (new_client g.supabase.refresh_token) r refl safe,
          before (new_client g.supabase.refresh_token) r refl same,
        )
        h

  after_key-Ended :
      (g : File) (t : Events) (r : Result KeyBytes)
      → is_empty g.supabase.private_key ≡ true
      → Well t
      → Same g
      → Ends Ended t (after_key quote path g r)
  unfolding after_key after_key_saved
  after_key-Ended g t (err e) blank well h = well.0
  after_key-Ended g t (ok key) blank well h = end
    where
      same : Same (keyed g (Base64.encode key.0))
      same = record {
        private_key = λ there.
            let clash = sym blank ∙ ap is_empty (h.private_key there) ∙ there in
            absurd (ground arith);
        proxmox = h.proxmox;
        agent = h.agent;
      }

      end :
          (r : Option Failure)
          → Ends Ended
              ((save path (keyed g (Base64.encode key.0)), r) ∷ t)
              (after_key_saved quote path (keyed g (Base64.encode key.0)) r)
      end (some e) = saved (keyed g (Base64.encode key.0)) t (some e) well (Same-Keeps _ same)
      end none =
          with_client-Ended (keyed g (Base64.encode key.0)) _
            (
              saved (keyed g (Base64.encode key.0)) t none well (Same-Keeps _ same),
              before (save path (keyed g (Base64.encode key.0))) none refl well.1,
            )
            same

  after_save-Ended :
      (g : File) (t : Events) (r : Option Failure)
      → Well t
      → Same g
      → Ends Ended t (after_save quote path g r)
  unfolding after_save
  after_save-Ended g t (some e) well h = well.0
  after_save-Ended g t none (safe, same) h =
      if-split (Ends Ended t) (not (is_empty g.supabase.private_key))
        (λ there. with_client-Ended g t (safe, same) h)
        λ blank r.
          after_key-Ended g _ r (ground arith)
            (other generate_keypair r refl safe, before generate_keypair r refl same) h

  write_merged-Ended :
      (r : Enrolled) (t : Events) → Well t → Ends Ended t (write_merged quote path f r)
  unfolding write_merged
  write_merged-Ended r t well = λ failed.
      after_save-Ended (merged f r) _ failed
        (
          saved (merged f r) t failed well (Same-Keeps _ same),
          before (save path (merged f r)) failed refl well.1,
        )
        same
    where
      same : Same (merged f r)
      same = record { private_key = λ there. refl; proxmox = refl; agent = refl }

module _ (quote : Bytes → Bytes) (path : Bytes) where
  after_load-Ended :
      (r : Enrolled) (t : Events) (x : Loaded)
      → Safe path t
      → Ends (λ out t'. Safe path t') ((load path, x) ∷ t) (after_load quote path r x)
  unfolding after_load
  after_load-Ended r t (loaded f) safe =
      let t' : Events = (load path, loaded f) ∷ t in
      if-cases (Ends (λ out t''. Safe path t'') t') (has_bad_level quote path f.agent)
        (other (load path) (loaded f) refl safe)
        (write_merged-Ended quote path f r t' (other (load path) (loaded f) refl safe, just_read f))
  after_load-Ended r t missing safe =
      write_merged-Ended quote path empty_file r _ (other (load path) missing refl safe, not_there)
  after_load-Ended r t (broken e) safe = other (load path) (broken e) refl safe

  after_enroll-Ended :
      (t : Events) (r : Result Enrolled)
      → Safe path t
      → Ends (λ out t'. Safe path t') t (after_enroll quote path r)
  unfolding after_enroll
  after_enroll-Ended t (err e) safe = safe
  after_enroll-Ended t (ok r) safe = λ x. after_load-Ended r t x safe

  -- In every world, --register writes to the file of the settings only, and only after it has
  -- read that same file or found that there is none; a file that it cannot read is never overwritten. Each file that it writes,
  -- behind a new enrolment, a new key or the prompts, has the old private key, URL, token id and token secret
  -- where the old file had them, the old verify_tls where one of these three was set, and the old settings of
  -- the agent with the defaults filled in.
  pub run_register-Safe :
      (opts : Options) (w : World Call Reply)
      → Safe path (run w [] (run_register quote path opts)).1
  unfolding run_register
  run_register-Safe opts w =
      run-Ends (λ out t. Safe path t) w [] (run_register quote path opts)
        (λ x. after_enroll-Ended _ (enrolled x) (other (post_enroll opts) x refl at_first))
