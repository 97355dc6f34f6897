-- ===== src/Protocol/Metadata.antt =====
-- ws/connection.go and wt/connection.go, `Metadata`: the copy that a connection hands out.
use go_wst.Prelude.{◌≡◌, refl, String, str_eq, eq_iff, [], ◌∷◌, none, some, if◌then◌else◌, arith}
use go_wst.Prelude.Dict.{Dict, lookup, insert, Distinct, lookup-insert, insert-Distinct}
use go_wst.Protocol.Value.{Any}

-- The loop that copies key by key.
unfoldable pub copy_entries : Dict Any → Dict Any → Dict Any
copy_entries result [] = result
copy_entries result ((k, v) ∷ m) = copy_entries (insert k v result) m

lookup-copy_entries :
    (k : String) (result m : Dict Any)
    → Distinct m
    → lookup k (copy_entries result m)
      ≡ (elim (lookup k m) [ some v ↦ some v | none ↦ lookup k result ])
unfolding copy_entries lookup
lookup-copy_entries k result [] d = refl
lookup-copy_entries k result ((j, v) ∷ m) d =
    ground (
      arith,
      lookup-copy_entries k (insert j v result) m d.1,
      lookup-insert j k v result,
      eq_iff j k,
    )

-- After a write to the map the copy holds what was written.
pub copy_entries-insert :
    (k j : String) (v : Any) (m : Dict Any)
    → Distinct m
    → lookup j (copy_entries [] (insert k v m))
      ≡ (if str_eq k j then some v else lookup j (copy_entries [] m))
unfolding lookup
copy_entries-insert k j v m h = ground (
  arith,
  lookup-copy_entries j [] (insert k v m) (insert-Distinct k v m h),
  lookup-copy_entries j [] m h,
  lookup-insert k j v m,
)
