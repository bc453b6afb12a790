-- ===== src/Session.antt =====
-- internal/session: the envelope that frames every control message, and the conversions between
-- wire values and the program's own.
pub mod Envelope
pub mod Convert
pub mod Auth
pub mod Hello
pub mod Loop
