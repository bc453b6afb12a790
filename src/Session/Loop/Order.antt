-- ===== src/Session/Loop/Order.antt =====
-- The messages that a session lets through, in the order that the handlers get them.
use open_air.Prelude.{
  ℕ, ◌≡◌, ◌⊎◌, inl, inr, refl, Bool, true, Bool-cases, not, ◌&&◌, List, ◌++◌, ◌==◌, Bytes, Option,
  Option-cases, arith,
}
use open_air.Prelude.Int.{ℤ}
use open_air.Prelude.NumMaps.{find, has_key}
use open_air.Identity.Types.{DeviceId, Peer}
use open_air.Session.Envelope.{Envelope}
use open_air.Session.Auth.{AuthProof, receive}
use open_air.Session.Auth.Sending.{msg_auth_proof}
use open_air.Session.Loop.{known_control_msg_type, Inbound, Sess, admit, dispatch}
use open_air.Session.Loop.Runs.{of_cap, waiting, queued, Moment}

-- What a capability is still to get: its queue, and the message that waits for it.
abbrev pending_for : ℕ → Sess → List Inbound
pending_for cap_id s = queued cap_id s.queues ++ of_cap cap_id (waiting s.blocked)

module _ (verify : Bytes → Bytes → Bytes → Bool) (unmarshal : Bytes → Option AuthProof)
    (look : Option (DeviceId → Option Peer)) (now : ℤ) (s : Sess) (env : Envelope) where
  -- A message changes nothing, or it is a proof that is received, or it is let in, where its
  -- capability is the session's own or was negotiated.
  pub dispatch-cases :
      (dispatch verify unmarshal look now s env ≡ s)
      ⊎ (dispatch verify unmarshal look now s env
          ≡ record s { auth = (receive s.auth (unmarshal env.payload)).0 })
      ⊎ ((dispatch verify unmarshal look now s env ≡ admit verify unmarshal look now s env)
          × ((env.cap_id ≡ 0) ⊎ (has_key env.cap_id s.caps ≡ true)))
  unfolding dispatch
  dispatch-cases = elim (Bool-cases ((env.cap_id == 0) && (env.msg_type == msg_auth_proof))) [
    | inl a ↦ inr (inl (rw (dispatch, a) refl))
    | inr a ↦ elim (Bool-cases ((env.cap_id == 0) && not (known_control_msg_type env.msg_type))) [
      | inl b ↦ inl (rw (dispatch, a, b) refl)
      | inr b ↦ elim (Bool-cases (not (env.cap_id == 0) && not (has_key env.cap_id s.caps))) [
        | inl c ↦ inl (rw (dispatch, a, b, c) refl)
        | inr c ↦ elim (Option-cases (find env.cap_id s.queues)) [
          | inl d ↦ inl (rw (dispatch, a, b, c, d) refl)
          | inr (q, d) ↦ inr (inr (rw (dispatch, a, b, c, d) refl, ground (arith, c)))
        ]
      ]
    ]
  ]

module _ (verify : Bytes → Bytes → Bytes → Bool) (unmarshal : Bytes → Option AuthProof)
    (look : Option (DeviceId → Option Peer)) (now : ℤ) (s : Sess) (env : Envelope) where
  abbrev moment : Moment
  moment = record { before = s; env = env; look = look; now = now }
