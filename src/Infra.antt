-- ===== src/Infra.antt =====
-- internal/infra/frame.go: how the rendezvous server and the relay frame their messages.
pub mod Frame
