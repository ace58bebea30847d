-- ===== src/Rpc/BlockWalker/Pages.antt =====
-- The pages of a block, from a node that lists the block's transactions.
use mathlib.Core.List.{append_assoc}
use stacks_dex_pool.Prelude.{
  ℕ, zero, suc, ◌+◌, ◌-◌, ◌%◌, ◌≤◌, ◌<◌, ◌≡◌, refl, sym, ap, ◌∙◌, min, some, List, [], ◌∷◌, ◌++◌,
  length, length-drop, take, drop, drop-drop, take-append-drop, length-take-min, take_all, ltb, leb,
  ltb→lt, ltb→ge, leb→le, Bool-cases, inl, inr, arith,
}
use stacks_dex_pool.Prelude.Word.{u32_size}
use stacks_dex_pool.Prelude.Outcome.{
  returned, Result, ok, Profile, add_word-eq, ◌>>=◌, >>=-eq-returned,
}
use stacks_dex_pool.Prelude.Fallible.{success}
use stacks_dex_pool.Rpc.Response.{RpcError, Response}
use stacks_dex_pool.Rpc.BlockWalker.{
  RawTx, TxPage, BlockTransaction, decode_tx, decode_txs, page_answered, after_page, fetch_pages,
}

module _ (sha256 : List ℕ → List ℕ) where
  decode_txs-length :
      (raws : List RawTx) (txs : List BlockTransaction)
      → decode_txs sha256 raws ≡ returned txs
      → length txs ≡ length raws
  unfolding decode_txs
  decode_txs-length [] txs h = ground arith
  decode_txs-length (raw ∷ raws) txs h =
      let rest = decode_txs sha256 raws in
      let (tx, first, more) =
        >>=-eq-returned (decode_tx sha256 raw) (λ t. rest >>= λ ts. returned (t ∷ ts)) txs h in
      let (later, decodes, whole) = >>=-eq-returned rest (λ ts. returned (tx ∷ ts)) txs more in
      let same : tx ∷ later ≡ txs = cc in
      rw (sym same) (omega (arith, decode_txs-length raws later decodes))

  -- The transactions of a list decode in two parts as in one.
  decode_txs-split :
      (n : ℕ) (raws : List RawTx) (txs : List BlockTransaction)
      → decode_txs sha256 raws ≡ returned txs
      → (decode_txs sha256 (take n raws) ≡ returned (take n txs))
        × (decode_txs sha256 (drop n raws) ≡ returned (drop n txs))
  unfolding decode_txs
  decode_txs-split zero raws txs h = (refl, h)
  decode_txs-split (suc n) [] txs h = ground arith
  decode_txs-split (suc n) (raw ∷ raws) txs h =
      let rest = decode_txs sha256 raws in
      let (tx, first, more) =
        >>=-eq-returned (decode_tx sha256 raw) (λ t. rest >>= λ ts. returned (t ∷ ts)) txs h in
      let (later, decodes, whole) = >>=-eq-returned rest (λ ts. returned (tx ∷ ts)) txs more in
      let same : tx ∷ later ≡ txs = cc in
      let (front, back) = decode_txs-split n raws later decodes in
      rw (sym same) (rw (first, front), back)

  module _ (p : Profile) (get : ℕ → Result RpcError (Response TxPage)) (page_size : ℕ)
      (listed : List RawTx)
      (serves : (offset : ℕ)
        → get offset
          ≡ ok (record {
            status = 200;
            body =
                some
                  (record { total = length listed; results = take page_size (drop offset listed) });
          }))
      (paged : 0 < page_size) (fits : length listed + page_size < u32_size) where
    abbrev page : ℕ → TxPage
    page offset = record { total = length listed; results = take page_size (drop offset listed) }

    fetch_pages-page :
        (fuel offset : ℕ) (out : List BlockTransaction)
        → fetch_pages sha256 p get page_size (suc fuel) offset out
          ≡ after_page sha256 p get page_size offset out
              (page offset)
              (fetch_pages sha256 p get page_size fuel)
    unfolding fetch_pages page_answered
    fetch_pages-page fuel offset out =
        let answer : page_answered (get offset) ≡ ok (some (page offset)) =
          rw (serves offset) refl in
        rw (answer, fetch_pages)

    fetch_pages-listed :
        (fuel offset : ℕ) (out rest : List BlockTransaction)
        → offset ≤ length listed
        → length listed - offset < fuel
        → decode_txs sha256 (drop offset listed) ≡ returned rest
        → fetch_pages sha256 p get page_size fuel offset out ≡ success (out ++ rest)
    unfolding after_page
    fetch_pages-listed zero offset out rest within enough decodes = absurd (omega arith)
    fetch_pages-listed (suc fuel) offset out rest within enough decodes =
        let left = drop offset listed in
        let n = length (take page_size left) in
        let (front, back) = decode_txs-split page_size left rest decodes in
        let got : n ≡ min page_size (length left) = length-take-min page_size left in
        let left_length = length-drop offset listed in
        let small : n % u32_size ≡ n = omega arith in
        let add = add_word-eq p u32_size offset n (omega arith) in
        let whole = take-append-drop page_size rest in
        let same_length = decode_txs-length left rest decodes in
        let ended : length left ≤ page_size → take page_size rest ≡ rest =
          λ few. take_all page_size rest (omega arith) in
        rw (fetch_pages-page fuel offset out, front, small)
          (elim (Bool-cases (ltb n page_size)) [
            | inl few ↦
                rw few
                  (ap (λ ts. success (out ++ ts)) (ended (omega (arith, ltb→lt n page_size few))))
            | inr many ↦
                let full : n ≡ page_size = omega (arith, ltb→ge n page_size many) in
                rw (many, add)
                  (elim (Bool-cases (leb (length listed) (offset + n))) [
                    | inl last ↦ rw last (
                        ap (λ ts. success (out ++ ts))
                          (ended (omega (arith, leb→le (length listed) (offset + n) last))))
                    | inr more ↦
                        let ih =
                          fetch_pages-listed fuel (offset + page_size) (out ++ take page_size rest)
                            (drop page_size rest) (ground arith) (omega arith)
                            (rw drop-drop at back) in
                        rw (more, full)
                          (ih
                            ∙ ap (λ ts. success ts)
                                (append_assoc out (take page_size rest) (drop page_size rest)
                                  ∙ ap (λ ts. out ++ ts) whole))
                  ])
          ])

    -- Let the node list a block's transactions, each page with their number, and let each of them
    -- decode. Then the loop over the pages ends, within one round more than there are
    -- transactions, and gives all of them in their order, each once.
    pub fetch_block_transactions-listed :
        (txs : List BlockTransaction)
        → decode_txs sha256 listed ≡ returned txs
        → fetch_pages sha256 p get page_size (suc (length listed)) 0 [] ≡ success txs
    fetch_block_transactions-listed txs decodes =
        fetch_pages-listed (suc (length listed)) 0 [] txs (omega arith) (omega arith) decodes
