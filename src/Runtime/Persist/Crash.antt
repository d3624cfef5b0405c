-- ===== src/Runtime/Persist/Crash.antt =====
-- What a crash leaves of config.yml.
use proxmoxvue_agent.Base.{
  ◌≡◌, sym, ap, ◌∙◌, ◌⊎◌, inl, inr, false, Option, none, some, [], arith, if◌then◌else◌, Bool-cases,
  All, Bytes, codes, str_eq, str_eq→eq, str_eq_refl,
}
use proxmoxvue_agent.Base.Program.{call, World, run}
use proxmoxvue_agent.Base.Failure.{Failure, wrap, Result, ok, err}
use mathlib.Core.Path.{subst}
use proxmoxvue_agent.Config.Storage.{File}
use proxmoxvue_agent.Runtime.Persist.{
  Call, Reply, load, save, create_temp, rename, with_token, discard, after_rename, after_chmod,
  after_save, after_temp, after_load, persist_refresh_to,
}
use proxmoxvue_agent.Runtime.Persist.Disk.{
  Content, absent, whole, torn, Disk, put, after, amid, Tells, file_effects, Guards, disk_of,
  IsHonest, crashes, run-Guards,
}

module _ (path token : Bytes) (f : File) where
  -- The file is as it was, or is so but for the token.
  abbrev pub Old : Disk → Type 0
  Old d = d path ≡ whole f

  abbrev pub New : Disk → Type 0
  New d = d path ≡ whole (with_token token f)

  abbrev pub Safe : Disk → Type 0
  Safe d = Old d ⊎ New d

  abbrev pub Verdict : Option Failure → Disk → Type 0
  Verdict none d = New d
  Verdict (some e) d = Old d

  module _ (tmp : Bytes) (other : str_eq path tmp ≡ false) where
    put-Old : (content : Content) (d : Disk) → Old d → Old (put tmp content d)
    put-Old content d old = ap (λ b. if b then content else d path) other ∙ old

    discard-Safe :
        (e : Failure) (d : Disk) → Old d → Guards file_effects Safe Verdict d (discard tmp e)
    unfolding amid after
    discard-Safe e d old =
        (inl old, inl old, λ r told. (inl (put-Old absent d old), put-Old absent d old))

    renamed : (d : Disk) → d tmp ≡ whole (with_token token f) → New (after (rename tmp path) none d)
    unfolding after
    renamed d new =
        ap (λ b. if b then absent else put path (d tmp) d path) other
        ∙ ap (λ b. if b then d tmp else d path) (str_eq_refl path)
        ∙ new

    after_chmod-Safe :
        (d : Disk) (r : Option Failure)
        → Old d
        → d tmp ≡ whole (with_token token f)
        → Guards file_effects Safe Verdict d (after_chmod path tmp r)
    unfolding after_chmod after_rename amid after
    after_chmod-Safe d (some e) old new = discard-Safe (wrap (codes "chmod temp: ") e) d old
    after_chmod-Safe d none old new = (inl old, inl old, step)
      where
        step :
            (r : Option Failure)
            → Tells d (rename tmp path) r
            → Guards file_effects Safe Verdict (after (rename tmp path) r d) (after_rename tmp r)
        step none told = (inr (renamed d new), renamed d new)
        step (some e) told = discard-Safe (wrap (codes "rename temp: ") e) d old

    after_save-Safe :
        (d : Disk) (r : Option Failure)
        → Old d
        → Guards file_effects Safe Verdict
            (after (save tmp (with_token token f)) r d)
            (after_save path tmp r)
    unfolding after_save amid after
    after_save-Safe d (some e) old = discard-Safe e (put tmp torn d) (put-Old torn d old)
    after_save-Safe d none old =
        let d' = put tmp (whole (with_token token f)) d in
        let old' = put-Old (whole (with_token token f)) d old in
        let new : d' tmp ≡ whole (with_token token f) =
          ap (λ b. if b then whole (with_token token f) else d tmp) (str_eq_refl tmp) in
        (inl old', inl old', λ r told. after_chmod-Safe d' r old' new)

    after_temp-Safe :
        (d : Disk)
        → Old d
        → Guards file_effects Safe Verdict
            (after create_temp (ok tmp) d)
            (after_temp path (with_token token f) (ok tmp))
    unfolding after_temp amid after
    after_temp-Safe d old =
        let old' = put-Old torn d old in
        (
          inl old',
          inl (put-Old torn (put tmp torn d) old'),
          λ r told. after_save-Safe (put tmp torn d) r old',
        )

  differs : (d : Disk) (tmp : Bytes) → Old d → d tmp ≡ absent → str_eq path tmp ≡ false
  differs d tmp old new = elim (Bool-cases (str_eq path tmp)) [
    | inl same ↦ let clash = sym old ∙ ap d (str_eq→eq path tmp same) ∙ new in absurd (ground arith)
    | inr other ↦ other
  ]

  loaded-Safe :
      (d : Disk)
      → Old d
      → Guards file_effects Safe Verdict d (call create_temp (after_temp path (with_token token f)))
  unfolding amid after_temp after Tells
  loaded-Safe d old = (inl old, inl old, step)
    where
      step :
          (r : Result Bytes)
          → Tells d create_temp r
          → Guards file_effects Safe Verdict
              (after create_temp r d)
              (after_temp path (with_token token f) r)
      step (err e) told = (inl old, old)
      step (ok tmp) told = after_temp-Safe tmp (differs d tmp old told) d old

  pub persist_refresh_to-Guards :
      (d : Disk) → Old d → Guards file_effects Safe Verdict d (persist_refresh_to path token)
  unfolding persist_refresh_to amid after_load after Tells
  persist_refresh_to-Guards d old = (inl old, inl old, step)
    where
      step :
          (r : Result File)
          → Tells d (load path) r
          → Guards file_effects Safe Verdict (after (load path) r d) (after_load path token r)
      step (err e) told = (inl old, old)
      step (ok g) told =
          subst
            (λ g.
              Guards file_effects Safe Verdict d
                (call create_temp (after_temp path (with_token token g))))
            (sym (told f old)) (loaded-Safe d old)

  -- Where config.yml is whole, and the environment reads what is on the disk and makes temporary files
  -- that are new, a crash at any moment of persistRefreshTo leaves config.yml either as it was or with
  -- the new token and all else as it was; a run that ends without an error has left the new file, and
  -- one that ends with an error the old one.
  pub persist_refresh_to-Safe :
      (d : Disk) (w : World Call Reply)
      → d path ≡ whole f
      → IsHonest file_effects d w
      → All Safe (crashes file_effects w d [] (persist_refresh_to path token))
        × (let (r, t) = run w [] (persist_refresh_to path token) in
            Verdict r (disk_of file_effects d t))
  persist_refresh_to-Safe d w old honest =
      run-Guards file_effects Safe Verdict w d [] (persist_refresh_to path token) honest
        (persist_refresh_to-Guards d old)
