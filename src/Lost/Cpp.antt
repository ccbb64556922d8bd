-- ===== src/Lost/Cpp.antt =====
-- The operators of esp8266/lost/libcpp.cpp, over the functions of the SDK: the memory is a state `S`,
-- and a pointer of 0 is the null pointer.
use esp8266_xcode.Base.{ℕ}

module _ {S : Type 0} (os_malloc : ℕ → S → ℕ × S) (os_free : ℕ → S → S) where
  -- `new` and `new[]`
  pub operator_new : ℕ → S → ℕ × S
  operator_new size s = os_malloc size s

  pub operator_new_array : ℕ → S → ℕ × S
  operator_new_array size s = os_malloc size s

  -- `delete` and `delete[]`, with or without a size
  pub operator_delete : ℕ → S → S
  operator_delete ptr s = os_free ptr s

  pub operator_delete_sized : ℕ → ℕ → S → S
  operator_delete_sized ptr size s = os_free ptr s

  pub operator_delete_array : ℕ → S → S
  operator_delete_array ptr s = os_free ptr s

  pub operator_delete_array_sized : ℕ → ℕ → S → S
  operator_delete_array_sized ptr size s = os_free ptr s
