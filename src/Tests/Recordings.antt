-- ===== src/Tests/Recordings.antt =====
-- The theorems about recordings, on files held in memory.
use ptr24_lab.Prelude.{ℕ, ◌≤◌, ◌≡◌, refl, [], ◌∷◌, ◌++◌, arith, length, drop, replicate}
use ptr24_lab.Wav.Files.{Read, got, success, failure, returns, spent}
use ptr24_lab.Wav.Header.{
  encode, decode, new_header, header_size, check_header, parse_wav_header, write_wav_header,
}
use ptr24_lab.Wav.HeaderLaws.{parse-write_wav_header, parse_wav_header_stale, new_header-FitsFields}
use ptr24_lab.Wav.Interface.{Copied}
use ptr24_lab.Wav.Data.{copy_wav_data, write_wav_data, append_wav_data}
use ptr24_lab.Wav.Copy.{patch, copy_wav_data-IsCopied}
use ptr24_lab.Wav.Append.{append_wav_data_stalls}
use ptr24_lab.Tests.Disks.{DiskFile, disk, disk-IsRegular, disk-IsPrompt, full_disk, answering_disk}

-- A recording of four bytes.
abbrev recording : DiskFile
unfolding encode new_header
recording = record {
  bytes = encode (record (new_header 7) { data_size = 4 }) ++ (1 ∷ 2 ∷ 3 ∷ 4 ∷ []);
  position = 0;
}

abbrev scrap : DiskFile
scrap = record { bytes = 1 ∷ 2 ∷ 3 ∷ []; position = 2 }

parse-write_wav_header_example :
    ((write_wav_header disk scrap 7).0 ≡ success)
    × (disk-IsRegular.content (write_wav_header disk scrap 7).1
        ≡ encode (new_header 7) ++ drop header_size (disk-IsRegular.content scrap))
    × ((parse_wav_header disk (write_wav_header disk scrap 7).1 (replicate 44 0)).0 ≡ success)
    × (decode (parse_wav_header disk (write_wav_header disk scrap 7).1 (replicate 44 0)).1
        ≡ new_header 7)
parse-write_wav_header_example =
    parse-write_wav_header disk disk-IsRegular disk-IsPrompt scrap 7 (replicate 44 0) (omega arith)
      refl

abbrev whole_header : Read
whole_header = got (encode (new_header 7))

parse_wav_header_stale_example :
    ((parse_wav_header answering_disk whole_header (replicate 44 9)).0 ≡ success)
    × ((parse_wav_header answering_disk
          (got (1 ∷ 2 ∷ []))
          (parse_wav_header answering_disk whole_header (replicate 44 9)).1).0
        ≡ failure)
    × ((parse_wav_header answering_disk Read.failed
          (parse_wav_header answering_disk whole_header (replicate 44 9)).1).0
        ≡ success)
    × (decode
          (parse_wav_header answering_disk Read.failed
            (parse_wav_header answering_disk whole_header (replicate 44 9)).1).1
        ≡ new_header 7)
unfolding check_header new_header
parse_wav_header_stale_example =
    parse_wav_header_stale answering_disk whole_header (got (1 ∷ 2 ∷ [])) Read.failed (new_header 7)
      (1 ∷ 2 ∷ []) (replicate 44 9) refl refl refl (new_header-FitsFields 7 (omega arith)) refl
      (omega arith) refl

copy_wav_data-IsCopied_example :
    (end : Copied DiskFile) × (copy_wav_data disk 5 recording 4 (9 ∷ 9 ∷ 9 ∷ 9 ∷ 9 ∷ [])
      ≡ returns end)
    × (disk-IsRegular.content end.file ≡ disk-IsRegular.content recording)
    × ((k : ℕ) × (k ≤ 4)
        × (end.memory
            ≡ patch (drop 44 (disk-IsRegular.content recording)) (9 ∷ 9 ∷ 9 ∷ 9 ∷ 9 ∷ []) k)
        × (end.code ≡ success
            → (k ≡ 4) × (4 ≤ length (drop 44 (disk-IsRegular.content recording)))))
copy_wav_data-IsCopied_example =
    copy_wav_data-IsCopied disk disk-IsRegular recording (9 ∷ 9 ∷ 9 ∷ 9 ∷ 9 ∷ []) 4 5 (omega arith)
      (omega arith) (omega arith)

append_wav_data_stalls_example :
    (append_wav_data full_disk 9 tt (5 ∷ 6 ∷ []) 2 (8 ∷ 8 ∷ 8 ∷ 8 ∷ []) ≡ spent)
    × ((g : Unit) × (write_wav_data full_disk 10 tt 2 (5 ∷ 6 ∷ []) ≡ returns (failure, g)))
append_wav_data_stalls_example =
    append_wav_data_stalls full_disk tt (5 ∷ 6 ∷ []) (8 ∷ 8 ∷ 8 ∷ 8 ∷ []) (0 ∷ 0 ∷ 0 ∷ 0 ∷ []) 2 9
      (λ g out. refl) refl (omega arith) (omega arith) (omega arith)
