-- ===== src/Detector/Redis/Keys.antt =====
-- The keys that detector/redigo/tokenbucket_redis.go uses.
use anicetus.Prelude.{sym, ◌≢◌, ◌==◌, if◌then◌else◌, ℕ, zero, suc, ◌≡◌, refl, ap, [], ◌∷◌, arith}
use anicetus.Message.{Text}
use anicetus.Detector.Redis.Client.{Mode, cooldown, thundering_herd, add_key_prefix}

abbrev drop : ℕ → Text → Text
drop zero t = t
drop (suc n) [] = []
drop (suc n) (c ∷ cs) = drop n cs

-- The first byte of the mode is "c" or "t".
abbrev mode_at : Text → Mode
mode_at [] = thundering_herd
mode_at (c ∷ cs) = if c == 99 then cooldown else thundering_herd

abbrev first_mode : Text → Mode
first_mode t = mode_at (drop 9 t)

mode_ne : cooldown ≢ thundering_herd
mode_ne e = ground arith

-- Different fingerprints never share a key, and neither do the two modes of one fingerprint.
pub add_key_prefix_injective :
    (f g : Text) (m n : Mode) → add_key_prefix f m ≡ add_key_prefix g n → (m ≡ n) × (f ≡ g)
unfolding add_key_prefix
add_key_prefix_injective f g cooldown cooldown e = (refl, ap (drop 18) e)
add_key_prefix_injective f g thundering_herd thundering_herd e = (refl, ap (drop 12) e)
add_key_prefix_injective f g cooldown thundering_herd e = absurd (mode_ne (ap first_mode e))
add_key_prefix_injective f g thundering_herd cooldown e = absurd (mode_ne (sym (ap first_mode e)))
