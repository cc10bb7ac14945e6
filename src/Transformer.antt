-- ===== src/Transformer.antt =====
-- The value transformations of src/device_sdk_py/internal/transformer.
pub mod Words
pub mod Numbers
pub mod ReadResult
pub mod StepRanges
pub mod WriteParameter
pub mod Origin
pub mod Reading
pub mod Event
