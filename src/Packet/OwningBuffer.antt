-- ===== src/Packet/OwningBuffer.antt =====
-- What the code relies on outside its own sources to hold bytes: the array `new u8[n]`, whose first
-- contents are not specified, and kb::core::OwningBuffer of the kb-std submodule. The laws are what
-- tests/core/test_owning_buffer.cpp checks: the buffer that `consume` makes of a pointer and a size
-- has that size, and the bytes that the pointer led to.
use kb_networking_cpp.Prelude.{ℕ, ◌≡◌, length}
use kb_networking_cpp.Packet.Bytes.{Bytes}

pub record Memory : Type 1 where
  pub new_u8 : ℕ → Bytes
  pub length-new_u8 : (n : ℕ) → length (new_u8 n) ≡ n
  pub OwningBuffer : Type 0
  -- consume(&pointer, size)
  pub consume : Bytes → ℕ → OwningBuffer
  -- data()
  pub contents : OwningBuffer → Bytes
  pub size : OwningBuffer → ℕ
  pub contents-consume : (d : Bytes) → contents (consume d (length d)) ≡ d
  pub size-consume : (d : Bytes) (n : ℕ) → size (consume d n) ≡ n
