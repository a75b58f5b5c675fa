-- ===== src/Service/Authority.antt =====
-- What a request may change (service/src/main.rs).
use lyraos_desktop_updater.Prelude.{
  if◌then◌else◌, nat_eq, option_eq, Bool-cases, text_list_eq, codes, text_eq, ◌≡◌, refl, inl, inr,
  true, false, not, ◌&&◌,
}
use lyraos_desktop_updater.Service.{
  request_id, is_supported, needs_authorization, Request, Response, show_diagnostics, rollback,
  keep_current, rejected,
}
use lyraos_desktop_updater.Service.Files.{Service}
use lyraos_desktop_updater.Service.Reports.{ServiceHost}
use lyraos_desktop_updater.Service.Handle.{dispatch, handle, acknowledge_recovery}

gate-read_only :
    (host : ServiceHost) (s : Service) (request : Request) (rest : Service × Response)
    → s.read_only ≡ true
    → (needs_authorization request ≡ false → rest.0 ≡ s)
    → (if not (is_supported request)
        then (s, rejected (request_id request) (codes "UNSUPPORTED_PROTOCOL"))
        else if s.read_only && needs_authorization request
        then (s, rejected (request_id request) (codes "AUTHORIZATION_REQUIRED"))
        else rest).0
      ≡ s
gate-read_only host s request rest r h = elim (Bool-cases (is_supported request)) [
  | inr e ↦ rw e refl
  | inl e ↦ rw e (elim (Bool-cases (needs_authorization request)) [
    | inl n ↦ simp (r, n)
    | inr n ↦ simp (r, n, h n)
  ])
]

dispatch-read_only :
    (host : ServiceHost) (s : Service) (request : Request)
    → needs_authorization request ≡ false
    → (dispatch host s request).0 ≡ s
unfolding acknowledge_recovery
dispatch-read_only host s (Request.check_release v id) n = refl
dispatch-read_only host s (Request.read_trust_state v id) n = refl
dispatch-read_only host s (Request.read_recovery_readiness v id) n = refl
dispatch-read_only host s (Request.inspect v id) n = refl
dispatch-read_only host s (Request.plan_update v id) n = refl
dispatch-read_only host s (Request.plan_release_upgrade v id hash) n = refl
dispatch-read_only host s (Request.start v id o h c p) n = cc
dispatch-read_only host s (Request.status v id o since) n = refl
dispatch-read_only host s (Request.cancel v id o) n = cc
dispatch-read_only host s (Request.acknowledge_recovery v id o show_diagnostics) n = refl
dispatch-read_only host s (Request.acknowledge_recovery v id o rollback) n = cc
dispatch-read_only host s (Request.acknowledge_recovery v id o keep_current) n = cc

-- A service that is read-only stays as it is, whatever the request and the host's answers.
pub handle-read_only :
    (host : ServiceHost) (s : Service) (request : Request)
    → s.read_only ≡ true
    → (handle host s request).0 ≡ s
unfolding handle
handle-read_only host s request r =
    gate-read_only host s request (dispatch host s request) r (dispatch-read_only host s request)
