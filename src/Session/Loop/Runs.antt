-- ===== src/Session/Loop/Runs.antt =====
-- The runs of an open session, and what has to reach the handlers in one.
use mathlib.Core.List.{append_assoc, append-nil}
use open_air.Prelude.{
  ℕ, ◌≡◌, inl, inr, refl, sym, ap, ◌∙◌, Bool, Bool-cases, not, ◌&&◌, List, [], ◌∷◌, ◌++◌, ltb, ◌==◌,
  if◌then◌else◌, length, Bytes, Option, none, some, Option-cases, arith,
}
use open_air.Prelude.Int.{ℤ}
use open_air.Prelude.NumMaps.{NumMap, find, store, has_key}
use open_air.Identity.Types.{DeviceId, Peer}
use open_air.Session.Envelope.{Envelope}
use open_air.Session.Auth.{AuthProof, PeerView, authorize_inbound}
use open_air.Session.Auth.Sending.{msg_auth_proof}
use open_air.Session.Loop.{
  cap_queue_depth, known_control_msg_type, Inbound, Sess, started, declared_level, put_waiting,
  take_next, dispatch,
}
use open_air.Session.Hello.{Established}

-- The messages of one capability.
unfoldable pub of_cap : ℕ → List (ℕ × Inbound) → List Inbound
of_cap cap_id [] = []
of_cap cap_id ((c, i) ∷ ms) = let rest = of_cap cap_id ms in if cap_id == c then i ∷ rest else rest

unfoldable pub waiting : Option (ℕ × Inbound) → List (ℕ × Inbound)
waiting none = []
waiting (some m) = m ∷ []

unfoldable pub queued : ℕ → NumMap (List Inbound) → List Inbound
queued cap_id queues = elim (find cap_id queues) [ none ↦ [] | some q ↦ q ]

-- What comes over the control stream, with the session as it is before, and the trust store and the
-- clock as they are then.
pub record Moment : Type 0 where
  pub before : Sess
  pub env : Envelope
  pub look : Option (DeviceId → Option Peer)
  pub now : ℤ

-- The history has this moment.
abbrev pub Has : List Moment → Moment → Type 0
Has history m = (earlier : List Moment) × (later : List Moment) × (history ≡ earlier ++ (m ∷ later))

-- The session's view of its peer, with the trust store as it is.
abbrev pub live_view : Sess → Option (DeviceId → Option Peer) → PeerView
live_view s look = record { peer = s.peer; have_record = s.have_record; peer_lookup = look }

-- A message for a capability that this session has: not a proof, and of a type that is known where
-- it is the session's own.
abbrev pub addressed : Sess → Envelope → Bool
addressed s env =
    (if env.cap_id == 0
      then known_control_msg_type env.msg_type && not (env.msg_type == msg_auth_proof)
      else has_key env.cap_id s.caps)
    && has_key env.cap_id s.queues

module _ (verify : Bytes → Bytes → Bytes → Bool) where
  -- What has to reach the handler of the capability that the message names: the message, if it is
  -- addressed to one and authorised.
  unfoldable pub let_in : Moment → List (ℕ × Inbound)
  let_in m =
      let env = m.env in
      let (a', owned, allowed, events) =
        authorize_inbound verify m.before.auth (live_view m.before m.look) m.now
          (declared_level m.before.handlers env.cap_id) env.cap_id env.msg_type in
      if addressed m.before env && allowed
      then (env.cap_id, record { env = env; owned = owned }) ∷ []
      else []

  unfoldable pub all_let_in : List Moment → List (ℕ × Inbound)
  all_let_in [] = []
  all_let_in (m ∷ ms) = let_in m ++ all_let_in ms

  pub all_let_in-snoc :
      (ms : List Moment) (m : Moment) → all_let_in (ms ++ (m ∷ [])) ≡ all_let_in ms ++ let_in m
  unfolding all_let_in
  all_let_in-snoc [] m = append-nil (let_in m)
  all_let_in-snoc (k ∷ ms) m =
      ap (◌++◌ (let_in k)) (all_let_in-snoc ms m)
      ∙ sym (append_assoc (let_in k) (all_let_in ms) (let_in m))

module _ (verify : Bytes → Bytes → Bytes → Bool) (unmarshal : Bytes → Option AuthProof)
    (e : Established) where
  abbrev pub after : Moment → Sess
  after m = dispatch verify unmarshal m.look m.now m.before m.env

  -- The runs of an open session, with what came over the control stream so far and what was served so
  -- far: the control loop dispatches a message if it does not wait with one; it puts the one that it
  -- waits with into its channel; and a capability's handler gets what its channel gives next.
  pub data Run : List Moment → List (ℕ × Inbound) → Sess → Type 0 where
    starts : Run [] [] (started e)
    dispatches :
        (history : List Moment) (served : List (ℕ × Inbound)) (m : Moment)
        → Run history served m.before
        → m.before.blocked ≡ none
        → Run (history ++ (m ∷ [])) served (after m)
    puts :
        (history : List Moment) (served : List (ℕ × Inbound)) (s s' : Sess)
        → Run history served s
        → put_waiting s ≡ some s'
        → Run history served s'
    serves :
        (history : List Moment) (served : List (ℕ × Inbound)) (s s' : Sess) (c : ℕ) (i : Inbound)
        → Run history served s
        → ◌≡◌ {A = Option (Inbound × Sess)} (take_next c s) (some (i, s'))
        → Run history (served ++ ((c, i) ∷ [])) s'

some_taken : {a b : Inbound × Sess} → some a ≡ some b → a ≡ b
some_taken h = cc

some_sess : {s t : Sess} → some s ≡ some t → s ≡ t
some_sess h = cc

-- What `put_waiting` and `take_next` do.
pub put_waiting-cases :
    (s s' : Sess)
    → put_waiting s ≡ some s'
    → (c : ℕ) × (i : Inbound) × (q : List Inbound) × (s.blocked ≡ some (c, i))
      × (find c s.queues ≡ some q)
      × (s' ≡ record s { blocked = none; queues = store c (q ++ (i ∷ [])) s.queues })
unfolding put_waiting
put_waiting-cases s s' h = elim (Option-cases s.blocked) [
  | inl e ↦ absurd (grind (arith, rw (put_waiting, e) at h))
  | inr ((c, i), e) ↦ elim (Option-cases (find c s.queues)) [
    | inl f ↦ absurd (grind (arith, rw (put_waiting, e, f) at h))
    | inr (q, f) ↦ elim (Bool-cases (ltb (length q) cap_queue_depth)) [
      | inl room ↦ (c, i, q, e, f, some_sess (sym (rw (put_waiting, e, f, room) at h)))
      | inr full ↦ absurd (grind (arith, rw (put_waiting, e, f, full) at h))
    ]
  ]
]

taken_from :
    (c : ℕ) (s s' : Sess) (i : Inbound) (q : List Inbound)
    → find c s.queues ≡ some q
    → ◌≡◌ {A = Option (Inbound × Sess)} (take_next c s) (some (i, s'))
    → (rest : List Inbound) × (find c s.queues ≡ some (i ∷ rest))
      × (s' ≡ record s { queues = store c rest s.queues })
unfolding take_next
taken_from c s s' i [] f h = absurd (grind (arith, rw (take_next, f) at h))
taken_from c s s' i (j ∷ q) f h =
    let h' : ◌≡◌ {A = Option (Inbound × Sess)} (some (j, record s { queues = store c q s.queues }))
        (some (i, s')) =
      sym (rw (take_next, f) refl) ∙ h in
    let same : j ≡ i = ap (λ t. t.0) (some_taken h') in
    (q, f ∙ ap (λ k. some (k ∷ q)) same, sym (ap (λ t. t.1) (some_taken h')))

pub take_next-cases :
    (c : ℕ) (s s' : Sess) (i : Inbound)
    → ◌≡◌ {A = Option (Inbound × Sess)} (take_next c s) (some (i, s'))
    → (rest : List Inbound) × (find c s.queues ≡ some (i ∷ rest))
      × (s' ≡ record s { queues = store c rest s.queues })
unfolding take_next
take_next-cases c s s' i h = elim (Option-cases (find c s.queues)) [
  | inl f ↦ absurd (grind (arith, rw (take_next, f) at h))
  | inr (q, f) ↦ taken_from c s s' i q f h
]
