-- ===== src/Tests/Keys.antt =====
-- Runs of the definitions of pkg/types on concrete keys.
use go_probe.Common.{◌≡◌, ◌≢◌, refl, inl, some, true, [], ◌∷◌, arith, ◌>>=◌}
use go_probe.Common.Bytes.{Bytes}
use go_probe.Types.Key.{Key, new_key, put_sip, put_dip, put_dport, put_proto}
use go_probe.Types.Key.Layout.{HasWidth, flow_key}
use go_probe.Types.Key.RoundTrip.{Reads, new_key-Reads, put_field-eq}
use go_probe.Types.ExtendedKey.{ExtendedKey, extend, attr_time}
use go_probe.Types.ExtendedKey.Time.{Extends, extend-Extends}

abbrev source : Bytes
source = 10 ∷ 0 ∷ 0 ∷ 1 ∷ []

abbrev destination : Bytes
destination = 192 ∷ 168 ∷ 1 ∷ 7 ∷ []

abbrev https : Bytes
https = 1 ∷ 187 ∷ []

fields : HasWidth 4 source destination https
fields = omega arith

new_key_runs :
    new_key source destination https 6
    ≡ some (10 ∷ 0 ∷ 0 ∷ 1 ∷ 192 ∷ 168 ∷ 1 ∷ 7 ∷ 1 ∷ 187 ∷ 6 ∷ [])
unfolding new_key go_probe.Common.Slices.copy_at go_probe.Common.Slices.store
new_key_runs = refl

new_key-Reads_example :
    (k : Key) × (new_key source destination https 6 ≡ some k)
    × Reads k true source destination https 6
new_key-Reads_example = new_key-Reads 6 4 (inl refl) fields

put_field-eq_example :
    let k = flow_key (1 ∷ 1 ∷ 1 ∷ 1 ∷ []) (2 ∷ 2 ∷ 2 ∷ 2 ∷ []) (0 ∷ 53 ∷ []) 17 in
    (put_sip k source ≡ some (flow_key source (2 ∷ 2 ∷ 2 ∷ 2 ∷ []) (0 ∷ 53 ∷ []) 17))
    × (put_dip k destination ≡ some (flow_key (1 ∷ 1 ∷ 1 ∷ 1 ∷ []) destination (0 ∷ 53 ∷ []) 17))
    × (put_dport k https ≡ some (flow_key (1 ∷ 1 ∷ 1 ∷ 1 ∷ []) (2 ∷ 2 ∷ 2 ∷ 2 ∷ []) https 17))
    × (put_proto k 6 ≡ some (flow_key (1 ∷ 1 ∷ 1 ∷ 1 ∷ []) (2 ∷ 2 ∷ 2 ∷ 2 ∷ []) (0 ∷ 53 ∷ []) 6))
put_field-eq_example =
    put_field-eq 6 4 (inl refl) fields (1 ∷ 1 ∷ 1 ∷ 1 ∷ []) (2 ∷ 2 ∷ 2 ∷ 2 ∷ []) (0 ∷ 53 ∷ []) 17
      (omega arith)

extend_runs :
    (extend (flow_key source destination https 6) 1456358400 >>= attr_time)
    ≡ some (1456358400, true)
unfolding extend attr_time go_probe.Common.Slices.copy_at go_probe.Common.Bytes.be_bytes
    go_probe.Common.Slices.slice go_probe.Common.Bytes.be_value
extend_runs = refl

extend-Extends_example :
    (e : ExtendedKey) × (extend (flow_key source destination https 6) 1456358400 ≡ some e)
    × Extends (flow_key source destination https 6) (1456358400, true) e
extend-Extends_example =
    extend-Extends (flow_key source destination https 6) 1456358400 (inl refl) (omega arith)
