-- ===== src/Frame.antt =====
-- hmmp/frame.py: the 16-byte header, the frame, and the encoder and decoder of whole frames.
-- MessagePack is a parameter: see `MsgPack`.
pub mod Header
pub mod Metadata
pub mod Encoder
pub mod Decoder
pub mod RoundTrip
pub mod Flags
pub mod Whole
pub mod Trailing
