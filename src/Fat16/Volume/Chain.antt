-- ===== src/Fat16/Volume/Chain.antt =====
-- Chains of clusters, and the loop that frees one.
use lisp_dos.Base.{
  ℕ, zero, suc, ◌+◌, ◌*◌, ◌^◌, ◌<◌, ◌≡◌, refl, ◌∙◌, Bool, true, false, ◌||◌, some, List, [], ◌∷◌,
  arith, ltb, leb, ◌==◌, if◌then◌else◌, Memory,
}
use lisp_dos.Ata.{Disk, ata_read_sector, ata_write_sector, read-write_sector}
use lisp_dos.Fat16.Volume.{fat_sector, Volume, get_fat_entry, set_fat_entry, in_chain, free_chain}
use lisp_dos.Fat16.Volume.Table.{IsVolume, HasEntry, read-set_fat_entry, get-set_fat_entry}

abbrev pub length : List ℕ → ℕ
length [] = 0
length (x ∷ xs) = suc (length xs)

abbrev pub has : ℕ → List ℕ → Bool
has c [] = false
has c (x ∷ xs) = x == c || has c xs

abbrev pub Distinct : List ℕ → Type 0
Distinct [] = Unit {0}
Distinct (x ∷ xs) = (has x xs ≡ false) × Distinct xs

-- The table leads from the cluster `c` through `cs` to a number that ends the chain.
abbrev pub Chain : Volume → Disk → ℕ → List ℕ → Type 0
Chain v d c [] = in_chain c ≡ false
Chain v d c (x ∷ xs) =
    (c ≡ x) × (in_chain x ≡ true) × HasEntry v x × Chain v d (get_fat_entry v d x) xs

-- The sectors of the tables: the driver writes the first, and its copy where there is one.
abbrev pub tables_size : Volume → ℕ
tables_size v = if ltb 1 v.bpb.table_count then 2 * v.bpb.table_size_16 else v.bpb.table_size_16

-- A sector before or behind the tables, which a write to an entry leaves alone.
abbrev pub IsOutside : Volume → ℕ → Type 0
IsOutside v b =
    (b < 2 ^ 28)
    × (ltb b v.bpb.reserved_sector_count || leb (v.bpb.reserved_sector_count + tables_size v) b
        ≡ true)

module _ (v : Volume) (ok : IsVolume v) where
  pub read-set_outside :
      (d : Disk) (c value b : ℕ)
      → HasEntry v c
      → IsOutside v b
      → ata_read_sector (set_fat_entry v d c value) b ≡ ata_read_sector d b
  read-set_outside d c value b in_table out =
      ground (arith, read-set_fat_entry v d c value ok in_table b)

  -- A chain that does not pass through `x` does not notice a write to the entry of `x`.
  pub Chain-set :
      (d : Disk) (x value c : ℕ) (cs : List ℕ)
      → HasEntry v x
      → value < 2 ^ 16
      → has x cs ≡ false
      → Chain v d c cs
      → Chain v (set_fat_entry v d x value) c cs
  Chain-set d x value c [] in_table small out k = k
  Chain-set d x value c (y ∷ ys) in_table small out (e, on, here, rest) =
      let same : get_fat_entry v (set_fat_entry v d x value) y ≡ get_fat_entry v d y =
        ground (arith, get-set_fat_entry v d x value ok in_table y here small) in
      (
        e,
        on,
        here,
        rw same (Chain-set d x value (get_fat_entry v d y) ys in_table small (ground arith) rest),
      )

  -- What the loop leaves: the entries of the chain are 0, and nothing else has changed.
  pub record Freed (d : Disk) (cs : List ℕ) (d' : Disk) : Type 0 where
    pub entries :
        (c : ℕ)
        → HasEntry v c
        → get_fat_entry v d' c ≡ (if has c cs then 0 else get_fat_entry v d c)
    pub outside : (b : ℕ) → IsOutside v b → ata_read_sector d' b ≡ ata_read_sector d b

  Freed-cons :
      (d d' : Disk) (x : ℕ) (xs : List ℕ)
      → HasEntry v x
      → has x xs ≡ false
      → Freed (set_fat_entry v d x 0) xs d'
      → Freed d (x ∷ xs) d'
  Freed-cons d d' x xs in_table new f = record {
    entries = λ c h.
        ground (arith, f.entries c h, get-set_fat_entry v d x 0 ok in_table c h (omega arith));
    outside = λ b out. f.outside b out ∙ read-set_outside d x 0 b in_table out;
  }

  -- On a volume whose tables fit, the loop that frees a chain of distinct clusters ends, given more rounds than it has clusters;
  -- it sets exactly their entries to 0, and changes no sector outside the tables.
  pub free_chain_lem :
      (d : Disk) (fuel c : ℕ) (cs : List ℕ)
      → Chain v d c cs
      → Distinct cs
      → length cs < fuel
      → (d' : Disk) × (free_chain v d fuel c ≡ some d') × Freed d cs d'
  unfolding free_chain
  free_chain_lem d zero c cs k distinct enough = absurd (omega arith)
  free_chain_lem d (suc n) c [] k distinct enough =
      (d, rw k, record { entries = λ c h. refl; outside = λ b out. refl })
  free_chain_lem d (suc n) c (x ∷ xs) (e, on, here, rest) (new, distinct) enough =
      let d1 = set_fat_entry v d x 0 in
      let kept = Chain-set d x 0 (get_fat_entry v d x) xs here (omega arith) new rest in
      let (d', is, freed) =
        free_chain_lem d1 n (get_fat_entry v d x) xs kept distinct (omega arith) in
      (d', rw (e, on) is, Freed-cons d d' x xs here new freed)

  -- A write outside the tables changes no entry.
  pub get-write_outside :
      (d : Disk) (b : ℕ) (buffer : Memory) (c : ℕ)
      → IsOutside v b
      → HasEntry v c
      → get_fat_entry v (ata_write_sector d b buffer) c ≡ get_fat_entry v d c
  unfolding get_fat_entry
  get-write_outside d b buffer c out here =
      ground (arith, read-write_sector d b (fat_sector v c) buffer out.0 (omega arith))
