-- ===== src/Zebu/Status.antt =====
-- The status word of `zebu_status` (src/core/multisim_server.cpp).
use multisim.Base.{ℕ, ◌+◌, ◌/◌, ◌%◌, ◌^◌, ◌≡◌, ◌≢◌, refl, ◌==◌, if◌then◌else◌, ==_iff, arith, true}
use multisim.MultisimServer.{success}
use multisim.Zebu.{zebu_status}

-- Bit 0 of the status word is the success of the call, and the 31 bits above it count the calls of
-- the server, modulo 2^31. So a status word differs from the one of the call before, however both
-- calls ended.
pub zebu_status_fields :
    (cnt : ℕ → ℕ) (idx r r' : ℕ)
    → let st = zebu_status cnt idx r in
      (st.0 % 2 ≡ (if r == success then 1 else 0))
      × (st.0 / 2 ≡ (cnt idx + 1) % 2 ^ 31)
      × (st.0 ≢ (zebu_status st.1 idx r').0)
unfolding zebu_status
zebu_status_fields cnt idx r r' =
    let self : (idx == idx) ≡ true = (==_iff idx idx).1 refl in
    (ground arith, ground arith, λ e. ground arith)
