-- ===== src/Hostabi.antt =====
-- hostabi: the values that host functions share with the VM.
pub mod Iterator
