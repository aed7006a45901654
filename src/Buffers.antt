-- ===== src/Buffers.antt =====
-- What the data path asks of components/Rina-manager/BufferManagement: a pool of network buffers.
use rinasensev.Prelude.{ℕ, suc, ◌≡◌, Option, some}

-- `get pool size` is pxGetNetworkBufferWithDescriptor, `none` for NULL; `release` is
-- vReleaseNetworkBufferAndDescriptor. A buffer is taken from those available and given back to
-- them.
pub record Buffers : Type 1 where
  pub Pool : Type 0
  pub get : Pool → ℕ → Option Pool
  pub release : Pool → Pool
  pub available : Pool → ℕ
  pub available-get :
      (p : Pool) (size : ℕ) {q : Pool} → get p size ≡ some q → available p ≡ suc (available q)
  pub available-release : (p : Pool) → available (release p) ≡ suc (available p)
