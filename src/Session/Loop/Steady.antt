-- ===== src/Session/Loop/Steady.antt =====
-- What no message changes in a session: its handlers, what was negotiated, whose session it is, and
-- the device id that its verifier takes proofs for.
use open_air.Prelude.{
  ℕ, ◌≡◌, inl, inr, refl, ap, ◌∙◌, Bool, List, Bytes, Option, none, some, Option-cases, arith,
}
use open_air.Prelude.Int.{ℤ}
use open_air.Prelude.NumMaps.{NumMap}
use open_air.Prelude.Maps.{lookup}
use open_air.Identity.Types.{DeviceId, Peer}
use open_air.Session.Envelope.{Envelope}
use open_air.Session.Auth.{
  AuthProof, AuthVerifier, receive, prune, spend, take_proof, consume, refreshed, authorize_inbound,
}
use open_air.Session.Hello.{Established}
use open_air.Session.Loop.{Inbound, Sess, view_of, admit, dispatch}
use open_air.Session.Loop.Order.{dispatch-cases}

-- What stays as the handshake left it.
pub record Steady (e : Established) (s : Sess) : Type 0 where
  pub same_handlers : s.handlers ≡ e.handlers
  pub same_caps : s.caps ≡ e.caps
  pub same_peer : s.peer ≡ e.peer
  pub same_id : s.auth.local_id ≡ e.auth.local_id

-- The channels are not among it.
pub requeued-Steady :
    (e : Established) (s t : Sess) (blocked : Option (ℕ × Inbound)) (queues : NumMap (List Inbound))
    → t ≡ record s { blocked = blocked; queues = queues }
    → Steady e s
    → Steady e t
requeued-Steady e s t blocked queues h st = record {
  same_handlers = ap (λ x. x.handlers) h ∙ st.same_handlers;
  same_caps = ap (λ x. x.caps) h ∙ st.same_caps;
  same_peer = ap (λ x. x.peer) h ∙ st.same_peer;
  same_id = ap (λ x. x.auth.local_id) h ∙ st.same_id;
}

spend_local_id :
    (a : AuthVerifier) (now : ℤ) (p : AuthProof) → (spend a now p).0.local_id ≡ a.local_id
unfolding spend
spend_local_id a now p = elim (Option-cases (lookup p.nonce a.seen)) [
  | inl e ↦ ground (arith, e)
  | inr (t, e) ↦ ground (arith, e)
]

pub receive_local_id :
    (a : AuthVerifier) (decoded : Option AuthProof) → (receive a decoded).0.local_id ≡ a.local_id
unfolding receive
receive_local_id a none = refl
receive_local_id a (some p) = ground arith

module _ (verify : Bytes → Bytes → Bytes → Bool) where
  consume_local_id :
      (a : AuthVerifier) (now : ℤ) (key : Bytes) (cap_id msg_type : ℕ)
      → (consume verify a now key cap_id msg_type).0.local_id ≡ a.local_id
  unfolding consume
  consume_local_id a now key cap_id msg_type =
      elim (Option-cases (take_proof verify key a.local_id cap_id msg_type a.pending)) [
        | inl e ↦ rw (consume, e) (ground arith)
        | inr ((p, rest), e) ↦
            rw (consume, e)
              (ground (
                arith,
                spend_local_id (record a { seen = prune now a.seen; pending = rest }) now p,
              ))
      ]

  pub dispatch-Steady :
      (unmarshal : Bytes → Option AuthProof) (look : Option (DeviceId → Option Peer)) (now : ℤ)
      (e : Established) (s : Sess) (env : Envelope)
      → Steady e s
      → Steady e (dispatch verify unmarshal look now s env)
  unfolding admit authorize_inbound
  dispatch-Steady unmarshal look now e s env st =
      let moved : (t : Sess)
          → dispatch verify unmarshal look now s env ≡ t
          → t.handlers ≡ s.handlers
          → t.caps ≡ s.caps
          → t.peer ≡ s.peer
          → t.auth.local_id ≡ s.auth.local_id
          → Steady e (dispatch verify unmarshal look now s env) =
        λ t h hs cs p id. record {
          same_handlers = ap (λ x. x.handlers) h ∙ hs ∙ st.same_handlers;
          same_caps = ap (λ x. x.caps) h ∙ cs ∙ st.same_caps;
          same_peer = ap (λ x. x.peer) h ∙ p ∙ st.same_peer;
          same_id = ap (λ x. x.auth.local_id) h ∙ id ∙ st.same_id;
        } in
      elim (dispatch-cases verify unmarshal look now s env) [
        | inl h ↦ moved s h refl refl refl refl
        | inr (inl h) ↦ moved _ h refl refl refl (receive_local_id s.auth (unmarshal env.payload))
        | inr (inr (h, known)) ↦
            let v = refreshed (view_of s look) in
            moved _ h refl refl refl
              (consume_local_id s.auth now v.peer.privilege_public_key env.cap_id env.msg_type)
      ]
