-- ===== src/Net/Local.antt =====
-- The blocks of addresses that are not public: private, loopback and link-local ones, as
-- agent/internal/discovery and agent/internal/safety test for them.
use tmap.Base.{ℕ, ◌/◌, ◌%◌, ◌^◌, ◌≤◌, ◌≡◌, ◌⊎◌}
use tmap.Net.Ip.{Ip, v4, v6}

abbrev pub Between : ℕ → ℕ → ℕ → Type 0
Between first n last = (first ≤ n) × (n ≤ last)

-- The addresses of the private, the loopback and the link-local blocks, by their first and last one.
abbrev pub IsLocal : Ip → Type 0
IsLocal (v4 n) =
    Between 0x0a000000 n 0x0affffff
    ⊎ (Between 0xac100000 n 0xac1fffff
        ⊎ (Between 0xc0a80000 n 0xc0a8ffff
            ⊎ (Between 0x7f000000 n 0x7fffffff
                ⊎ (Between 0xa9fe0000 n 0xa9feffff ⊎ Between 0xe0000000 n 0xe00000ff))))
IsLocal (v6 n) =
    (n / 2 ^ 121 ≡ 0x7e)
    ⊎ ((n ≡ 1) ⊎ ((n / 2 ^ 118 ≡ 0x3fa) ⊎ ((n / 2 ^ 120 ≡ 0xff) × (n / 2 ^ 112 % 16 ≡ 2))))
