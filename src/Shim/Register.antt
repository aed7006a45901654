-- ===== src/Shim/Register.antt =====
-- xShimEnrollToDIF, xShimApplicationRegister, xShimApplicationUnregister and pxShimWiFiCreate in
-- components/Shim/WiFi/wifi_IPCP_ops.c, on an instance that is there.
use rinasensev.Prelude.{
  ℕ, Bool, true, false, not, if◌then◌else◌, Option, none, some, [], is_some, ◌>>=◌, replicate,
}
use rinasensev.Memory.{alloc}
use rinasensev.Names.{Name, name_fini, name_dup}
use rinasensev.Gpha.{Bytes, mac_802_3, is_gpa_ok, is_gha_ok}
use rinasensev.Arp.{gpa_at, gha_at, new_gha, gpa_destroy, gha_destroy}
use rinasensev.Arp.Update.{add, remove, init_cache}
use rinasensev.Shim.{
  Pointer, null, wild, to, is_set, pointer_of, Handle, Shim, with_memory, name_gpa,
}

-- xShimEnrollToDIF, with the answers of the network interface to its initialisation and connection.
unfoldable pub enroll_to_dif : Shim → Bytes → Bool → Bool → Option (Bool × Shim)
enroll_to_dif s behind initialised connects =
    if not initialised
    then some (false, s)
    else do arp ← init_cache s.arp behind; some (connects, record s { arp = arp })

abbrev pub fini_name : Pointer Name → Option (Pointer Name)
fini_name null = some null
fini_name wild = none
fini_name (to n) = some (to (name_fini n))

-- vRstrNameFree of a name: the pointer is kept.
abbrev pub free_name : Pointer Name → Option (Pointer Name)
free_name null = some null
free_name wild = none
free_name (to n) = some wild

-- The name of the application is emptied and stays.
abbrev pub empty_app : Shim → Option (Bool × Shim)
empty_app s = do n ← fini_name s.app_name; some (false, record s { app_name = n })

abbrev pub free_app : Shim → Option Shim
free_app s = do n ← free_name s.app_name; some (record s { app_name = n })

abbrev pub free_daf : Shim → Option Shim
free_daf s = do n ← free_name s.daf_name; some (record s { daf_name = n })

-- xARPRemove of the two addresses of a handle.
abbrev pub remove_handle : Shim → Handle → Option (Bool × Shim)
remove_handle s h = do
  (removed, arp) ← remove s.arp (gpa_at s.arp.gpas h.pa) (gha_at s.arp h.ha)
  some (removed, record s { arp = arp })

-- The way back when the DAF cannot be registered: the entry of the application goes.
abbrev pub withdraw_app : Shim → Handle → Option Shim
withdraw_app s h = do (_, s1) ← remove_handle s h; some (record s1 { app_handle = none })

abbrev pub destroy_gha : Shim → Option ℕ → Shim
destroy_gha s ha = record s { arp = gha_destroy s.arp ha }

abbrev pub destroy_gpa : Shim → Option ℕ → Shim
destroy_gpa s pa = record s { arp = gpa_destroy s.arp pa }

-- The second half of xShimApplicationRegister, for the name of the DAF.
unfoldable pub register_daf : Shim → Option Name → Handle → Option (Bool × Shim)
register_daf s daf h = do
  (name, m) ← name_dup daf s.arp.memory
  let s1 = with_memory m (record s { daf_name = pointer_of name })
  if not (is_some name)
      then (do s2 ← withdraw_app s1 h; s3 ← free_app s2; some (false, destroy_gha s3 h.ha))
      else do
        (pa, s2) ← name_gpa s1 daf
        if not (is_gpa_ok (gpa_at s2.arp.gpas pa))
            then (do
              s3 ← withdraw_app s2 h
              s4 ← free_daf s3
              s5 ← free_app s4
              some (false, destroy_gha s5 h.ha))
            else do
              (added, arp) ← add s2.arp pa h.ha
              let s3 = record s2 { arp = arp }
              if added
                  then some (true, record s3 { daf_handle = some (record { pa = pa; ha = h.ha }) })
                  else do
                    s4 ← withdraw_app s3 h
                    s5 ← free_app s4
                    s6 ← free_daf s5
                    some (false, destroy_gha (destroy_gpa s6 pa) h.ha)

-- The first half, once the name of the application has been copied.
unfoldable pub register_app : Shim → Name → Option Name → Option (Bool × Shim)
register_app s app daf = do
  (pa, s1) ← name_gpa s (some app)
  if not (is_gpa_ok (gpa_at s1.arp.gpas pa)) then empty_app s1 else do
    let (ha, arp) = new_gha s1.arp mac_802_3 s1.phy_dev
    let s2 = record s1 { arp = arp }
    if not (is_gha_ok (gha_at s2.arp ha)) then empty_app (destroy_gha s2 ha) else do
      (added, arp') ← add s2.arp pa ha
      let s3 = record s2 { arp = arp' }
      let h : Handle = record { pa = pa; ha = ha }
      if not added
          then empty_app (destroy_gha (destroy_gpa s3 pa) ha)
          else register_daf (record s3 { app_handle = some h }) daf h

-- xShimApplicationRegister.
unfoldable pub application_register : Shim → Option Name → Option Name → Option (Bool × Shim)
application_register s none daf = some (false, s)
application_register s (some app) daf = if is_set s.app_name then some (false, s) else do
  (name, m) ← name_dup (some app) s.arp.memory
  let s1 = with_memory m (record s { app_name = pointer_of name })
  if not (is_some name) then some (false, s1) else register_app s1 app daf

-- The removal of a handle: the answer of xARPRemove, which is true when the entry went, is taken
-- for a failure.
abbrev pub removal_fails : Shim → Option Handle → Option (Bool × Shim)
removal_fails s none = some (false, s)
removal_fails s (some h) = remove_handle s h

-- xShimApplicationUnregister.
unfoldable pub application_unregister : Shim → Option Name → Option (Bool × Shim)
application_unregister s none = some (false, s)
application_unregister s (some name) = if not (is_set s.app_name) then some (false, s) else do
  (failed, s1) ← removal_fails s s.app_handle
  if failed then some (false, s1) else do
    let s2 = record s1 { app_handle = none }
    (failed', s3) ← removal_fails s2 s2.daf_handle
    if failed' then some (false, s3) else do
      let s4 = record s3 { daf_handle = none }
      s5 ← free_app s4
      s6 ← free_daf (record s5 { app_name = null })
      some (true, record s6 { daf_name = null })

-- pxShimWiFiCreate but for the fields that nothing reads: the blocks of the MAC address, the
-- instance and its data are tested, those of the flow specification and the name are written at
-- once. The block of the data held `held`, and no flow is left.
unfoldable pub wifi_create : Shim → Option (Option Shim)
wifi_create held =
    let (ok1, m1) = alloc held.arp.memory in
    let (ok2, m2) = alloc m1 in
    let (ok3, m3) = alloc m2 in
    let (ok4, m4) = alloc m3 in
    let (ok5, m5) = alloc m4 in
    if not ok1
    then some none
    else if not ok2
    then some none
    else if not ok3
    then some none
    else if not ok4
    then none
    else if not ok5
    then none
    else some (
        some (
          with_memory m5 (record held {
            app_name = null;
            daf_name = null;
            phy_dev = replicate 6 0;
            flows = [];
          })))
