-- ===== src/Conf/Words.antt =====
-- The 8 bytes of a `uint64_t` go to the wire and back.
use turboraft.Prelude.{ℕ, ◌^◌, ◌<◌, ◌≡◌, List, [], ◌∷◌, ◌++◌, arith}
use turboraft.Conf.Codec.{put_u64, get_u64}

pub get_u64-put_u64 : (v : ℕ) (rest : List ℕ) → v < 2 ^ 64 → get_u64 (put_u64 v ++ rest) ≡ v
unfolding get_u64 put_u64
get_u64-put_u64 v rest h = omega arith

pub put_u64-get_u64 :
    (a b c d e f g h : ℕ) (rest : List ℕ)
    → a < 256
    → b < 256
    → c < 256
    → d < 256
    → e < 256
    → f < 256
    → g < 256
    → h < 256
    → put_u64 (get_u64 (a ∷ b ∷ c ∷ d ∷ e ∷ f ∷ g ∷ h ∷ rest)) ≡ a ∷ b ∷ c ∷ d ∷ e ∷ f ∷ g ∷ h ∷ []
unfolding get_u64 put_u64
put_u64-get_u64 a b c d e f g h rest ha hb hc hd he hf hg hh = ground arith
