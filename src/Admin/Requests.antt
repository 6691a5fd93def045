-- ===== src/Admin/Requests.antt =====
-- The mutating routes of admin/api/router.py. Each runs in one database session, which flushes what the service
-- writes and which nobody commits: the tables are those that this session sees.
use cadencia_platform.Base.{
  ℕ, ◌≡◌, ap, resume, if◌then◌else◌, err, Bool, true, false, Option, ◌==◌, ok, validation_error,
  authorization, Action, ◌>>=◌, ◌>>◌, pure, raise_if, not, Text, arith,
}
use cadencia_platform.Identity.{User, is_admin}
use cadencia_platform.Identity.Requests.{Payload, get_current_user}
use cadencia_platform.Admin.{
  Platform, FrontendStatus, KycAction, SuspendAction, Target, apply_kyc_action, suspend_user,
  pause_agent, resume_agent, broadcast,
}

module _ (decode : (now : ℕ) → Text → Option Payload) where
  unfoldable pub current_user : (now : ℕ) → Option Text → Action Platform User
  current_user now token p =
      let (r, o) = get_current_user decode now token p.office in (r, record p { office = o })

  unfoldable pub require_admin : (now : ℕ) → Option Text → Action Platform User
  require_admin now token = do
    u ← current_user now token
    raise_if (not (is_admin u.role)) authorization
    pure u

  -- `suspend_user` of the router: nobody suspends or reinstates their own account.
  unfoldable pub suspend_route : (user now : ℕ) → SuspendAction → Option Text → Action Platform Bool
  suspend_route user now action token = do
    u ← require_admin now token
    raise_if (user == u.id) validation_error
    suspend_user user action

  unfoldable pub kyc_route :
      (enterprise now : ℕ) → KycAction → Option Text → Action Platform FrontendStatus
  kyc_route enterprise now action token = do
    require_admin now token
    apply_kyc_action enterprise action

  unfoldable pub pause_route : (session now : ℕ) → Option Text → Action Platform (Unit {0})
  pause_route session now token = do require_admin now token; pause_agent session

  unfoldable pub resume_route : (session now : ℕ) → Option Text → Action Platform (Unit {0})
  resume_route session now token = do require_admin now token; resume_agent session

  unfoldable pub broadcast_route : (id now : ℕ) → Text → Target → Option Text → Action Platform ℕ
  broadcast_route id now message target token = do
    u ← require_admin now token
    broadcast id u.id message target

  current_user_of :
      (now : ℕ) (token : Option Text) (p : Platform) (u : User)
      → get_current_user decode now token p.office ≡ (ok u, p.office)
      → current_user now token p ≡ (ok u, p)
  unfolding current_user
  current_user_of now token p u h = ground arith

  pub admitted :
      (now : ℕ) (token : Option Text) (p : Platform) (u : User)
      → get_current_user decode now token p.office ≡ (ok u, p.office)
      → is_admin u.role ≡ true
      → require_admin now token p ≡ (ok u, p)
  unfolding require_admin
  admitted now token p u h admin = let caller = current_user_of now token p u h in ground arith

  turned_away :
      (now : ℕ) (token : Option Text) (p : Platform) (u : User)
      → get_current_user decode now token p.office ≡ (ok u, p.office)
      → is_admin u.role ≡ false
      → require_admin now token p ≡ (err authorization, p)
  unfolding require_admin
  turned_away now token p u h plain = let caller = current_user_of now token p u h in ground arith

  pub routes_guarded :
      (now user enterprise session id : ℕ) (token : Option Text) (kyc : KycAction)
      (action : SuspendAction) (message : Text) (target : Target) (p : Platform) (u : User)
      → get_current_user decode now token p.office ≡ (ok u, p.office)
      → (is_admin u.role ≡ false
          → (suspend_route user now action token p ≡ (err authorization, p))
            × (kyc_route enterprise now kyc token p ≡ (err authorization, p))
            × (pause_route session now token p ≡ (err authorization, p))
            × (resume_route session now token p ≡ (err authorization, p))
            × (broadcast_route id now message target token p ≡ (err authorization, p)))
        × (is_admin u.role ≡ true
            → (suspend_route user now action token p
                ≡ (if user == u.id then (err validation_error, p) else suspend_user user action p))
              × (kyc_route enterprise now kyc token p ≡ apply_kyc_action enterprise kyc p)
              × (pause_route session now token p ≡ pause_agent session p)
              × (resume_route session now token p ≡ resume_agent session p)
              × (broadcast_route id now message target token p
                  ≡ broadcast id u.id message target p))
  unfolding suspend_route kyc_route pause_route resume_route broadcast_route
  routes_guarded now user enterprise session id token kyc action message target p u h = (
    λ plain.
        let refused = turned_away now token p u h plain in
        (
          ap
              (resume (λ (v : User).
                raise_if (user == v.id) validation_error >> suspend_user user action))
              refused,
          ap (resume (λ (v : User). apply_kyc_action enterprise kyc)) refused,
          ap (resume (λ (v : User). pause_agent session)) refused,
          ap (resume (λ (v : User). resume_agent session)) refused,
          ap (resume (λ (v : User). broadcast id v.id message target)) refused,
        ),
    λ admin.
        let entered = admitted now token p u h admin in
        (
          ground arith,
          ap (resume (λ (v : User). apply_kyc_action enterprise kyc)) entered,
          ap (resume (λ (v : User). pause_agent session)) entered,
          ap (resume (λ (v : User). resume_agent session)) entered,
          ap (resume (λ (v : User). broadcast id v.id message target)) entered,
        ),
  )
