-- ===== src/Console/Api.antt =====
-- `struct console` of sys/kern/include/platform/early_console.h, its function pointers as functions
-- on the screen, and `console_init`, which fills it.
use ganos.Base.{ℕ, List}
use ganos.Base.Run.{Run}
use ganos.Base.Int.{ℤ}
use ganos.Console as Early
use ganos.Console.{Screen}

pub record Console : Type 0 where
  pub rows : ℕ
  pub cols : ℕ
  pub print_c : ℕ → Screen → Screen
  pub print_s : List ℕ → Screen → Screen
  pub print_i64 : ℕ → ℤ → Screen → Run Screen
  pub print_u64 : ℕ → ℕ → Screen → Run Screen
  pub clear : Screen → Screen

abbrev pub console_init : Console
console_init = record {
  rows = Early.rows;
  cols = Early.cols;
  print_c = Early.print_char;
  print_s = Early.print_str;
  print_i64 = Early.print_i64;
  print_u64 = Early.print_u64;
  clear = Early.clear;
}
