-- ===== src/NativeHost.antt =====
-- The native messaging host of the browser (apps/fubun-native-host/src/main.rs): the caller's
-- origin and the framing of its messages.
pub mod Origin
pub mod Frame
pub mod Hello
