-- ===== src/ReadWrite/Tests.antt =====
-- Tests of the transfers, on partitions of one drive, one of them swapped.
use tivo_tools.Base.{ℕ, List, [], ◌∷◌, ◌≡◌, refl, arith, inr, replicate, All-replicate}
use tivo_tools.Base.Memory.{IsByte}
use tivo_tools.Disk.{Disk, ret}
use tivo_tools.ReadWrite.{tivo_partition_read, tivo_partition_write, data_swab}
use tivo_tools.ReadWrite.Swab.{swap_pairs, data_swab-swap_pairs, data_swab-data_swab}
use tivo_tools.ReadWrite.Transfer.{Covers, read-write, write_isolated}
use tivo_tools.Sample.{drive, file_a, file_b}

swaps : data_swab (1 ∷ 2 ∷ 3 ∷ 4 ∷ 5 ∷ 6 ∷ 7 ∷ []) 7 ≡ 2 ∷ 1 ∷ 4 ∷ 3 ∷ 6 ∷ 5 ∷ 7 ∷ []
unfolding data_swab tivo_tools.ReadWrite.swab_word tivo_tools.ReadWrite.swab_rest
swaps = refl

data_swab-swap_pairs_example :
    data_swab (1 ∷ 2 ∷ 3 ∷ 4 ∷ 5 ∷ 6 ∷ []) 6 ≡ swap_pairs 6 (1 ∷ 2 ∷ 3 ∷ 4 ∷ 5 ∷ 6 ∷ [])
data_swab-swap_pairs_example =
    data_swab-swap_pairs (1 ∷ 2 ∷ 3 ∷ 4 ∷ 5 ∷ 6 ∷ []) 6
      (omega arith, (omega arith, (omega arith, (omega arith, (omega arith, (omega arith, tt))))))
      (omega arith)

data_swab-data_swab_example :
    data_swab (data_swab (1 ∷ 2 ∷ 3 ∷ 4 ∷ 5 ∷ 6 ∷ []) 6) 6 ≡ 1 ∷ 2 ∷ 3 ∷ 4 ∷ 5 ∷ 6 ∷ []
data_swab-data_swab_example =
    data_swab-data_swab (1 ∷ 2 ∷ 3 ∷ 4 ∷ 5 ∷ 6 ∷ []) 6
      (omega arith, (omega arith, (omega arith, (omega arith, (omega arith, (omega arith, tt))))))
      (omega arith)

abbrev data_2 : List ℕ
data_2 = 1 ∷ 2 ∷ replicate 1022 7

covers : Covers drive file_b 5 2
unfolding tivo_tools.ReadWrite.tivo_partition_size tivo_tools.ReadWrite.tivo_partition_offset
    tivo_tools.Disk.run_faulty
covers = record {
  some_sectors = omega arith;
  inside = omega arith;
  placed = omega arith;
  end_small = omega arith;
  healthy = refl;
}

read-write_example :
    let (r, b, d) = tivo_partition_write drive file_b data_2 5 2 in
    (r ≡ ret 1024) × (b ≡ data_2) × (tivo_partition_read d file_b [] 5 2 ≡ (ret 1024, data_2))
read-write_example =
    read-write drive file_b 5 2 data_2 [] covers
      (omega arith, (omega arith, All-replicate IsByte 1022 7 (omega arith))) refl (omega arith)

write_isolated_example :
    tivo_partition_read (tivo_partition_write drive file_b data_2 5 2).2 file_a [] 17 1
    ≡ tivo_partition_read drive file_a [] 17 1
unfolding tivo_tools.ReadWrite.tivo_partition_offset tivo_tools.ReadWrite.tivo_partition_size
write_isolated_example =
    write_isolated drive file_b file_a data_2 5 2 [] 17 1 (inr (inr (omega arith))) (omega arith)
      (omega arith) (omega arith) (omega arith)
