-- ===== src/Nanopb.antt =====
-- ios/Pods/nanopb: the protocol buffer codec that the Firebase pods encode and decode with.
pub mod Errors
mod Examples
mod FieldExamples
mod MessageExamples
mod SizeExamples
mod SafeMessageExamples
mod SafeExamples
mod StringExamples
pub mod Allocate
pub mod DecodeBytes
pub mod DecodeMessage
pub mod DecodeScalar
pub mod DecodeString
pub mod Encode
pub mod EncodeMessage
pub mod EncodeScalar
pub mod Field
pub mod FieldIter
pub mod IStream
pub mod Memory
pub mod OStream
pub mod Program
pub mod RoundTrip
pub mod Wire
