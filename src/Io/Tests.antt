-- ===== src/Io/Tests.antt =====
-- src/io_util.rs on small inputs.
use tls_tunnel.Prelude.{◌≡◌, refl, true, [], ◌∷◌, ◌++◌, take, codes, arith}
use tls_tunnel.Io.Vectored.{
  wrote, interrupted, done, concat, advance_slices, Writer, write_vectored_all,
}
use tls_tunnel.Io.Delivery.{InSlices, Delivers, write_vectored_all-Delivers}
use tls_tunnel.Io.Repetition.{write_vectored_all_repeats}

abbrev writer : Writer
writer = record {
  write_all = λ s. record { bytes = s; ending = done };
  attempts = wrote 5 ∷ interrupted ∷ wrote 4 ∷ [];
  flushes = true;
}

abbrev partial : Writer
partial = record writer { attempts = wrote 2 ∷ wrote 9 ∷ [] }

write_vectored_all-Delivers_example :
    Delivers []
      (codes "head " ∷ codes "body" ∷ [])
      (write_vectored_all writer (codes "head " ∷ codes "body" ∷ []))
unfolding InSlices concat advance_slices
write_vectored_all-Delivers_example =
    write_vectored_all-Delivers writer (codes "head ") (codes "body") [] (
      record { front = codes "head " ∷ []; rest = codes "body" ∷ []; split = refl; size = refl },
      (record { front = codes "body" ∷ []; rest = []; split = refl; size = refl }, tt),
    )

write_vectored_all_repeats_example :
    let r = write_vectored_all partial (codes "head " ∷ codes "body" ∷ []) in
    (r.ending ≡ done)
    × (r.bytes
        ≡ take 2 (concat (codes "head " ∷ codes "body" ∷ []))
          ++ concat (codes "head " ∷ codes "body" ∷ []))
unfolding concat
write_vectored_all_repeats_example =
    write_vectored_all_repeats partial (codes "head ") (codes "body") [] 2 [] (omega arith)
      (omega arith) refl refl

repeats_the_start :
    (write_vectored_all partial (codes "head " ∷ codes "body" ∷ [])).bytes ≡ codes "hehead body"
unfolding write_vectored_all
repeats_the_start = refl
