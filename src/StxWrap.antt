-- ===== src/StxWrap.antt =====
-- src/stx_wrap.rs: the contracts that stand for native STX at each exchange.
use stacks_dex_pool.Prelude.{ℕ, ◌+◌, ◌≡◌, arith, Bool, map, leb, ◌&&◌, if◌then◌else◌}
use stacks_dex_pool.Prelude.Text.{Text, bytes, text_eq}

abbrev pub bitflow_v2_stx : Text
bitflow_v2_stx = bytes "SM1793C4R5PZ4NS4VQ4WMP7SKKYVH8JZEWSZ9HCCR.token-stx-v-1-2"

abbrev pub alex_stx_v2 : Text
alex_stx_v2 = bytes "SP102V8P0F7JX67ARQ77WEA3D3CFB5XW39REDT0AM.token-wstx-v2"

abbrev pub velar_stx : Text
velar_stx = bytes "SP1Y5YSTAHZ88XYK1VPDH24GY0HPX5J4JECTMY4A1.wstx"

abbrev pub arkadiko_stx : Text
arkadiko_stx = bytes "SP2C2YFP12AJZB4MABJBAJ55XECVS7E4PMMZ89YZR.wrapped-stx-token"

-- `to_ascii_lowercase` of a byte.
abbrev pub lowercase : ℕ → ℕ
lowercase c = if leb 0x41 c && leb c 0x5a then c + 32 else c

-- `str::eq_ignore_ascii_case`.
unfoldable pub eq_ignore_ascii_case : Text → Text → Bool
eq_ignore_ascii_case s t = text_eq (map lowercase s) (map lowercase t)

unfoldable pub is_native_stx : Text → Bool
is_native_stx principal = eq_ignore_ascii_case principal (bytes "STX")

unfoldable pub for_bitflow_v2 : Text → Text
for_bitflow_v2 principal = if is_native_stx principal then bitflow_v2_stx else principal

unfoldable pub for_alex_v2 : Text → Text
for_alex_v2 principal = if is_native_stx principal then alex_stx_v2 else principal

unfoldable pub for_velar : Text → Text
for_velar principal = if is_native_stx principal then velar_stx else principal

unfoldable pub for_arkadiko : Text → Text
for_arkadiko principal = if is_native_stx principal then arkadiko_stx else principal

-- No wrapped contract is taken for native STX again, at any exchange.
pub for_again :
    (principal : Text)
    → (for_bitflow_v2 (for_bitflow_v2 principal) ≡ for_bitflow_v2 principal)
      × (for_alex_v2 (for_alex_v2 principal) ≡ for_alex_v2 principal)
      × (for_velar (for_velar principal) ≡ for_velar principal)
      × (for_arkadiko (for_arkadiko principal) ≡ for_arkadiko principal)
unfolding for_bitflow_v2 for_alex_v2 for_velar for_arkadiko is_native_stx eq_ignore_ascii_case
    text_eq bytes
for_again principal = ground arith
