-- ===== src/Client.antt =====
-- pulsar/__init__.py: the wrapper of the native client. What the native module `_pulsar` does is a
-- parameter; the model is what the wrapper asks of it, and the state that the wrapper keeps.
pub mod Argument
pub mod Native
pub mod Producer
pub mod Init
pub mod Authentication
pub mod Consumer
pub mod MessageId
pub mod Delivery
