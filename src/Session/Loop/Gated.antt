-- ===== src/Session/Loop/Gated.antt =====
-- What reaches a capability's handler over the control stream.
use open_air.Prelude.{ℕ, ◌≡◌, ◌⊎◌, inl, inr, Bool, true, Bool-cases, List, Bytes, Option}
use open_air.Prelude.Int.{ℤ, leb_ℤ}
use open_air.Prelude.NumMaps.{NumMap, has_key}
use open_air.Identity.Types.{level_trusted, TrustLevel, DeviceId, Peer}
use open_air.Session.Auth.{
  AuthProof, AuthVerifier, AuthEvent, PeerView, required_level, authorize_inbound,
}
use open_air.Session.Auth.Spend.{Spent}
use open_air.Session.Auth.Gate.{Standing, authorize_inbound-Spent}
use open_air.Session.Hello.{HandlerInfo, Established}
use open_air.Session.Loop.{Inbound, declared_level}
use open_air.Session.Loop.Runs.{Moment, Has, live_view}
use open_air.Session.Loop.Steady.{Steady}

module _ (verify : Bytes → Bytes → Bytes → Bool) where
  -- A proof that verifies for the operation under the privilege key of the peer as `Standing` says,
  -- so that of the trust store's record where it holds one, and was spent by the operation.
  pub record Proven (before : AuthVerifier) (view : PeerView) (now : ℤ)
      (declared : Option TrustLevel) (cap_id msg_type : ℕ) : Type 0 where
    pub after : AuthVerifier
    pub key : Bytes
    pub proof : AuthProof
    pub spent : Spent verify before now key cap_id msg_type proof after
    pub standing : Standing view declared key

  -- The message came over the control stream at a moment of the history, when the session was this
  -- peer's and this device's, and a proof was spent on it then, with the trust store and the clock as
  -- they were then.
  unfoldable pub ProvenThen :
      Peer → DeviceId → List Moment → Option TrustLevel → ℕ → Inbound → Type 0
  ProvenThen peer local_id history declared c i =
      (m : Moment) × Has history m
      × (m.env ≡ i.env)
      × (m.before.peer ≡ peer)
      × (m.before.auth.local_id ≡ local_id)
      × Proven m.before.auth (live_view m.before m.look) m.now declared c i.env.msg_type

  -- What a message was let through on: a capability of this session, and a proof of its own where
  -- the handler asks for more than Trusted.
  unfoldable pub Gate :
      NumMap HandlerInfo → NumMap ℕ → Peer → DeviceId → List Moment → ℕ × Inbound → Type 0
  Gate handlers caps peer local_id history (c, i) =
      (i.env.cap_id ≡ c)
      × ((c ≡ 0) ⊎ (has_key c caps ≡ true))
      × ((leb_ℤ (required_level (declared_level handlers c)) level_trusted ≡ true)
          ⊎ ((i.owned ≡ true) × ProvenThen peer local_id history (declared_level handlers c) c i))

  pub passed_gate :
      (a : AuthVerifier) (v : PeerView) (now : ℤ) (declared : Option TrustLevel) (c t : ℕ)
      (a' : AuthVerifier) (owned : Bool) (events : List AuthEvent)
      → ◌≡◌ {A = AuthVerifier × Bool × Bool × List AuthEvent}
          (authorize_inbound verify a v now declared c t)
          (a', owned, true, events)
      → (leb_ℤ (required_level declared) level_trusted ≡ true)
        ⊎ ((owned ≡ true) × Proven a v now declared c t)
  passed_gate a v now declared c t a' owned events h =
      elim (Bool-cases (leb_ℤ (required_level declared) level_trusted)) [
        | inl common ↦ inl common
        | inr privileged ↦
            let ((p, key, spent, standing), proven) =
              authorize_inbound-Spent verify a a' v now declared c t owned events privileged h in
            inr (
              proven,
              record { after = a'; key = key; proof = p; spent = spent; standing = standing },
            )
      ]

module _ (verify : Bytes → Bytes → Bytes → Bool) (unmarshal : Bytes → Option AuthProof)
    (e : Established) where
  abbrev Admissible : List Moment → ℕ × Inbound → Type 0
  Admissible history m = Gate verify e.handlers e.caps e.peer e.auth.local_id history m
