-- ===== src/Client/Headers.antt =====
-- Which responses src/order_entry.py accepts by their headers.
use hft_trading_system.Protocol.Responses.{OeResponseHeader}
use hft_trading_system.Prelude.{
  >>-err, >>-ok, Action, Done, Error, List, [], ap, arith, eqb_iff, err, inl, inr, int_eq, nat_eq,
  ok, pure, refl, ℕ, ◌<◌, ◌>>◌, ◌↔◌, ◌∷◌, ◌≡◌, ◌⊎◌,
}
use hft_trading_system.Client.{OrderEntryClient, accept_header, validate_response_header}

-- The headers of responses, one after the other, up to the first that is refused
unfoldable pub accept_all : List OeResponseHeader → Action OrderEntryClient Done
unfolding accept_header
accept_all [] = pure tt
accept_all (h ∷ hs) = accept_header h >> accept_all hs

-- The number follows the last; a last number of 0 says that there was none.
abbrev pub IsNext : ℕ → ℕ → Type 0
IsNext last n = (last ≡ 0) ⊎ (last < n)

abbrev pub IsInOrder : ℕ → ℕ → List OeResponseHeader → Type 0
IsInOrder client_id last [] = Done
IsInOrder client_id last (h ∷ hs) =
    (h.version ≡ 1)
    × (h.client_id ≡ client_id)
    × IsNext last h.seq_num
    × IsInOrder client_id h.seq_num hs

abbrev pub Fits : OrderEntryClient → OeResponseHeader → Type 0
Fits c h = (h.version ≡ 1) × (h.client_id ≡ c.client_id) × IsNext c.resp_seq h.seq_num

pub accept_header-cases :
    (h : OeResponseHeader) (c : OrderEntryClient)
    → (Fits c h × (accept_header h c ≡ (ok tt, record c { resp_seq = h.seq_num })))
      ⊎ ((¬ Fits c h) × (accept_header h c ≡ (err Error.value_error, c)))
unfolding accept_header validate_response_header
accept_header-cases h c =
    ground (arith, eqb_iff h.version 1, eqb_iff h.client_id c.client_id, eqb_iff c.resp_seq 0)

-- A run of responses is accepted exactly if each has the version 1, the number of the client, and a
-- sequence number above that of the response before it, where that was not 0.
pub accept_all_iff :
    (hs : List OeResponseHeader) (c : OrderEntryClient)
    → ((accept_all hs c).0 ≡ ok tt) ↔ IsInOrder c.client_id c.resp_seq hs
unfolding accept_all
accept_all_iff [] c = (λ e. tt, λ h. refl)
accept_all_iff (h ∷ hs) c = elim (accept_header-cases h c) [
  | inl (fits, e) ↦
      let ih = accept_all_iff hs (record c { resp_seq = h.seq_num }) in
      rw (>>-ok (accept_header h) (accept_all hs) c tt (ap (λ x. x.0) e), e)
        (λ r. (fits.0, fits.1, fits.2, ih.0 r), λ r. ih.1 r.3)
  | inr (unfit, e) ↦
      rw (>>-err (accept_header h) (accept_all hs) c Error.value_error (ap (λ x. x.0) e))
        (λ r. cc, λ r. absurd (unfit (r.0, r.1, r.2)))
]
