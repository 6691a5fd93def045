-- ===== src/Negotiation/Service/Commits.antt =====
-- When the database sees what negotiation/application/services.py did.
use cadencia_platform.Base.{
  ℕ, ◌≡◌, ◌<◌, Bool, true, false, some, arith, Result, ok, err, conflict, Action, Result-cases,
  is_ok, lift, codes, ◌++◌, Option-cases, ◌>>=◌, ◌>>◌, resume, refl, inl, inr, Text,
}
use cadencia_platform.Negotiation.Offers.{Offer, create_human_offer, offer_value}
use cadencia_platform.Negotiation.Session.{
  Session, is_expired, mark_timeout, SessionEvent, activate, mark_failed, mark_walk_away,
  mark_policy_breach, resume_from_human_review, add_offer, mark_stalled, escalate_to_human_review,
  mark_agreed,
}
use cadencia_platform.Negotiation.Tables.{SessionRow, find_row, get_by_id, session_model_to_domain}
use cadencia_platform.Negotiation.Tables.Restore.{get_by_id_found}
use cadencia_platform.Negotiation.Engine.{Profile, Turn, process_turn}
use cadencia_platform.Negotiation.Service.{
  Desk, CreateSessionCommand, HumanOverrideCommand, commit, handle, take_turn, run_agent_turn,
  create_session, apply_human_override, terminate_session, on_session, save, reopen, save_offer,
  digits, store_turn, handle_stall, handle_agreement, close_turn, update, publish,
}

-- A turn on a session found in the database never reaches the engine once the clock has passed
-- the creation of its row: it raises, and leaves what is committed as it was.
pub run_agent_turn_stale :
    (id : ℕ) (turn : Turn) (buyer seller : Profile) (d : Desk) (m : SessionRow)
    → find_row id d.tables.sessions ≡ some m
    → m.created_at < turn.now
    → let (r, d') = run_agent_turn id turn buyer seller d in
      (r ≡ err conflict) × (d'.durable ≡ d.durable)
unfolding run_agent_turn session_model_to_domain is_expired handle on_session update publish
    mark_timeout
run_agent_turn_stale id turn buyer seller d m found late =
    ground (arith, get_by_id_found id d.tables m found)

-- A call that leaves an unentered unit of work unentered, and what is committed as it was.
abbrev IsQuiet : {A : Type 0} → Action Desk A → Type 0
IsQuiet m =
    (d : Desk) → d.entered ≡ false → ((m d).1.entered ≡ false) × ((m d).1.durable ≡ d.durable)

-- A call that moreover raises on it.
abbrev IsRefused : {A : Type 0} → Action Desk A → Type 0
IsRefused {A} m =
    (d : Desk)
    → d.entered ≡ false
    → (is_ok (m d).0 ≡ false) × ((m d).1.entered ≡ false) × ((m d).1.durable ≡ d.durable)

module _ {A B : Type 0} (m : Action Desk A) (f : A → Action Desk B) where
  bind-IsQuiet : IsQuiet m → ((a : A) → IsQuiet (f a)) → IsQuiet (m >>= f)
  bind-IsQuiet h k d e = go (m d) (h d e)
    where
      go :
          (p : Result A × Desk)
          → (p.1.entered ≡ false) × (p.1.durable ≡ d.durable)
          → ((resume f p).1.entered ≡ false) × ((resume f p).1.durable ≡ d.durable)
      go (ok a, d') (u, v) = ground (arith, k a d' u)
      go (err x, d') (u, v) = (u, v)

  bind-IsRefused : IsQuiet m → ((a : A) → IsRefused (f a)) → IsRefused (m >>= f)
  bind-IsRefused h k d e = go (m d) (h d e)
    where
      go :
          (p : Result A × Desk)
          → (p.1.entered ≡ false) × (p.1.durable ≡ d.durable)
          → (is_ok (resume f p).0 ≡ false)
            × ((resume f p).1.entered ≡ false)
            × ((resume f p).1.durable ≡ d.durable)
      go (ok a, d') (u, v) = ground (arith, k a d' u)
      go (err x, d') (u, v) = (refl, u, v)

create_session-IsRefused :
    (id now : ℕ) (cmd : CreateSessionCommand) → IsRefused (create_session id now cmd)
unfolding create_session on_session save publish commit activate
create_session-IsRefused id now cmd d e = ground arith

terminate_session-IsRefused :
    (id now : ℕ) (reason : Text) → IsRefused (terminate_session id now reason)
unfolding terminate_session on_session update publish commit mark_failed
terminate_session-IsRefused id now reason d e = ground arith

on_session-IsQuiet : {A : Type 0} (m : Action Session A) (s : Session) → IsQuiet (on_session m s)
unfolding on_session
on_session-IsQuiet m s d e = elim (Result-cases (m s).0) [
  | inl (a, k) ↦ ground arith
  | inr (x, k) ↦ ground arith
]

handle-IsQuiet :
    (now : ℕ) (m : Action Session SessionEvent) (s : Session) → IsQuiet (handle now m s)
unfolding handle on_session update publish
handle-IsQuiet now m s d e = elim (Result-cases (m s).0) [
  | inl (a, k) ↦ ground arith
  | inr (x, k) ↦ ground arith
]

handle_stall-IsQuiet : (now : ℕ) (s : Session) → IsQuiet (handle_stall now s)
unfolding handle_stall
handle_stall-IsQuiet now s =
    bind-IsQuiet (on_session (mark_stalled now) s)
      (λ r. handle now (escalate_to_human_review now) r.1) (on_session-IsQuiet (mark_stalled now) s)
      (λ r. handle-IsQuiet now (escalate_to_human_review now) r.1)

handle_agreement-IsQuiet : (now : ℕ) (s : Session) (o : Offer) → IsQuiet (handle_agreement now s o)
unfolding handle_agreement
handle_agreement-IsQuiet now s o =
    bind-IsQuiet (lift (offer_value o.price.amount (codes "INR"))) _ (λ d e. (e, refl))
      (λ v. handle-IsQuiet now (mark_agreed v (codes "{}") now now) s)

close_turn-IsQuiet : (now : ℕ) (s : Session) (o : Offer) → IsQuiet (close_turn now s o)
unfolding close_turn
close_turn-IsQuiet now s o d e = ground (
  arith,
  handle-IsQuiet now
      (mark_walk_away (codes "Agent rejected at round " ++ digits s.round_count) now now) s d e,
  handle-IsQuiet now (mark_policy_breach (codes "Schema validation failed 3x") now now) s d e,
  handle-IsQuiet now (mark_timeout now now) s d e,
  handle_stall-IsQuiet now s d e,
  handle_agreement-IsQuiet now s o d e,
)

store_turn-IsRefused :
    (now : ℕ) (v : SessionEvent) (s : Session) (o : Offer) (t : Bool)
    → IsRefused (store_turn now v s o t)
unfolding store_turn save_offer update publish commit
store_turn-IsRefused now v s o false d e = ground arith
store_turn-IsRefused now v s o true d e =
    let d' = ((save_offer o >> (update now s >> publish v)) d).1 in
    elim (Result-cases (close_turn now s o d').0) [
      | inl (a, k) ↦ ground (arith, close_turn-IsQuiet now s o d' e)
      | inr (x, k) ↦ ground (arith, close_turn-IsQuiet now s o d' e)
    ]

take_turn-IsRefused :
    (turn : Turn) (buyer seller : Profile) (s : Session) → IsRefused (take_turn turn buyer seller s)
unfolding take_turn
take_turn-IsRefused turn buyer seller s =
    bind-IsRefused (on_session (process_turn turn buyer seller) s)
      (λ made. on_session (add_offer made.0.0 turn.now turn.now) made.1 >>= λ added.
        store_turn turn.now added.0 added.1 made.0.0 made.0.1)
      (on_session-IsQuiet (process_turn turn buyer seller) s)
      (λ made.
        bind-IsRefused (on_session (add_offer made.0.0 turn.now turn.now) made.1)
          (λ added. store_turn turn.now added.0 added.1 made.0.0 made.0.1)
          (on_session-IsQuiet (add_offer made.0.0 turn.now turn.now) made.1)
          (λ added. store_turn-IsRefused turn.now added.0 added.1 made.0.0 made.0.1))

run_agent_turn-IsRefused :
    (id : ℕ) (turn : Turn) (buyer seller : Profile)
    → IsRefused (run_agent_turn id turn buyer seller)
unfolding run_agent_turn
run_agent_turn-IsRefused id turn buyer seller d e = elim (Option-cases (get_by_id id d.tables)) [
  | inl k ↦ ground arith
  | inr (s, k) ↦ elim (Result-cases (handle turn.now (mark_timeout turn.now turn.now) s d).0) [
    | inl (a, h) ↦ ground (
      arith,
      take_turn-IsRefused turn buyer seller s d e,
      handle-IsQuiet turn.now (mark_timeout turn.now turn.now) s d e,
    )
    | inr (x, h) ↦ ground (
      arith,
      take_turn-IsRefused turn buyer seller s d e,
      handle-IsQuiet turn.now (mark_timeout turn.now turn.now) s d e,
    )
  ]
]

apply_human_override-IsRefused :
    (offer_id now : ℕ) (cmd : HumanOverrideCommand)
    → IsRefused (apply_human_override offer_id now cmd)
unfolding apply_human_override reopen on_session save_offer update publish commit
    resume_from_human_review create_human_offer add_offer
apply_human_override-IsRefused offer_id now cmd d e =
    elim (Option-cases (get_by_id cmd.session_id d.tables)) [
      | inl k ↦ ground arith
      | inr (s, k) ↦ ground arith
    ]

-- An outcome that raised and left what is committed as it was.
abbrev pub IsLost : {A : Type 0} → Desk → Result A × Desk → Type 0
IsLost d p = (is_ok p.0 ≡ false) × (p.1.durable ≡ d.durable)

-- On a unit of work that nobody has entered every operation that should commit raises, and what
-- is committed stays as it was: creating a session, running a turn, the human's override and
-- the termination.
services_need_entry :
    (d : Desk) (id now : ℕ) (turn : Turn) (buyer seller : Profile) (create : CreateSessionCommand)
    (override_cmd : HumanOverrideCommand) (reason : Text)
    → d.entered ≡ false
    → IsLost d (create_session id now create d)
      × IsLost d (run_agent_turn id turn buyer seller d)
      × IsLost d (apply_human_override id now override_cmd d)
      × IsLost d (terminate_session id now reason d)
services_need_entry d id now turn buyer seller create override_cmd reason e =
    let (a, b, c) = create_session-IsRefused id now create d e in
    let (f, g, h) = run_agent_turn-IsRefused id turn buyer seller d e in
    let (i, j, k) = apply_human_override-IsRefused id now override_cmd d e in
    let (l, m, n) = terminate_session-IsRefused id now reason d e in
    ((a, c), (f, h), (i, k), (l, n))
