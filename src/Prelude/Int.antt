-- ===== src/Prelude/Int.antt =====
-- Go's signed integers as far as the code compares them.
use Prim.Native.Nat.{ℕ}
use mathlib.Core.Bool.{Bool, true, false}
use code_watch.Prelude.Tests.{ltb}

pub data ℤ : Type 0 where
  pos : ℕ → ℤ
  negsuc : ℕ → ℤ

abbrev pub lessℤ : ℤ → ℤ → Bool
lessℤ (pos m) (pos n) = ltb m n
lessℤ (pos m) (negsuc n) = false
lessℤ (negsuc m) (pos n) = true
lessℤ (negsuc m) (negsuc n) = ltb n m
