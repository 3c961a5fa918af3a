-- ===== src/Utils.antt =====
-- utils/src: the file descriptors and the hexadecimal text that the programs share.
pub mod FileDescriptor
pub mod Hex
