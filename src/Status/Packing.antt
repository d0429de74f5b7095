-- ===== src/Status/Packing.antt =====
-- Packing and unpacking of status words.
use u_gds.Prelude.{
  ℕ, zero, suc, ◌+◌, ◌*◌, ◌/◌, ◌%◌, ◌^◌, ◌<◌, ◌≡◌, refl, ◌∙◌, ◌&&◌, some, arith, pos, neg, ◌==◌,
}
use u_gds.Queue.{Cpl}
use u_gds.Status.{
  err_sct, err_sc, err_status, err_ok, err_pack, err_unpack_errno, err_unpack_sct, err_unpack_sc,
  status_ok,
}

sct_bound : (cpl : Cpl) → err_sct cpl < 8
unfolding err_sct
sct_bound cpl = omega arith

sc_bound : (cpl : Cpl) → err_sc cpl < 256
unfolding err_sc
sc_bound cpl = omega arith

unpack_sct-neg : (n : ℕ) → err_unpack_sct (neg n) ≡ n / 2 ^ 8 % 2 ^ 8
unfolding err_unpack_sct
unpack_sct-neg zero = refl
unpack_sct-neg (suc n) = refl

unpack_sc-neg : (n : ℕ) → err_unpack_sc (neg n) ≡ n % 2 ^ 8
unfolding err_unpack_sc
unpack_sc-neg zero = refl
unpack_sc-neg (suc n) = refl

unpack_errno-neg : (n : ℕ) → err_unpack_errno (neg n) ≡ 0
unfolding err_unpack_errno
unpack_errno-neg zero = refl
unpack_errno-neg (suc n) = refl

ok-neg : (n : ℕ) → status_ok (neg n) ≡ (n == 0)
unfolding status_ok
ok-neg zero = refl
ok-neg (suc n) = ground arith

errno-pos : (n : ℕ) → err_unpack_errno (pos n) ≡ n
unfolding err_unpack_errno
errno-pos n = refl

sct-pos : (n : ℕ) → err_unpack_sct (pos n) ≡ 0
unfolding err_unpack_sct
sct-pos n = refl

sc-pos : (n : ℕ) → err_unpack_sc (pos n) ≡ 0
unfolding err_unpack_sc
sc-pos n = refl

ok-pos : (n : ℕ) → status_ok (pos n) ≡ (n == 0)
unfolding status_ok
ok-pos n = refl

-- The status of a completion with no errno unpacks to the completion's status code type and code
-- and to errno 0; the status of an errno unpacks to that errno and to no status code, whatever
-- the completion says.
pub unpack-pack :
    (cpl : Cpl) (err : ℕ)
    → (err_unpack_sct (err_pack (some cpl) 0) ≡ err_sct cpl)
      × (err_unpack_sc (err_pack (some cpl) 0) ≡ err_sc cpl)
      × (err_unpack_errno (err_pack (some cpl) 0) ≡ 0)
      × (err_unpack_errno (err_pack (some cpl) (suc err)) ≡ suc err)
      × (err_unpack_sct (err_pack (some cpl) (suc err)) ≡ 0)
      × (err_unpack_sc (err_pack (some cpl) (suc err)) ≡ 0)
unfolding err_pack err_status
unpack-pack cpl err =
    let n = err_sct cpl * 2 ^ 8 + err_sc cpl in
    (
      unpack_sct-neg n ∙ omega (arith, sct_bound cpl, sc_bound cpl),
      unpack_sc-neg n ∙ omega (arith, sc_bound cpl),
      unpack_errno-neg n,
      ground (arith, errno-pos (suc err)),
      ground (arith, sct-pos (suc err)),
      ground (arith, sc-pos (suc err)),
    )

-- A packed status passes `nvm_ok` exactly when there is no errno and the completion is a success
-- by `NVM_ERR_OK`.
pub ok-pack :
    (cpl : Cpl) (err : ℕ) → status_ok (err_pack (some cpl) err) ≡ ((err == 0) && err_ok cpl)
unfolding err_pack err_status err_ok
ok-pack cpl zero = ok-neg (err_sct cpl * 2 ^ 8 + err_sc cpl) ∙ ground arith
ok-pack cpl (suc err) = ground (arith, ok-pos (suc err))
