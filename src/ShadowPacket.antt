-- ===== src/ShadowPacket.antt =====
-- ss2022/packet.go: the packers and unpackers of Shadowsocks 2022 packets. A packet is a separate header
-- of 16 bytes, identity headers of 16 bytes, and a sealed body. The ciphers of `crypto/cipher` are
-- arguments, and so are the random numbers and the time, in nanoseconds since Go's zero time. `none` is a
-- panic on an index out of range.
pub mod Cipher
pub mod Pack
pub mod Unpack
pub mod Change
pub mod Knowledge
pub mod ClientStep
pub mod Replay
pub mod ServerStep
pub mod ServerReplay
mod Examples
