-- ===== src/Worker/FileChunkStore/Put/Outcome.antt =====
-- The outcomes of Put that its theorem allows, and how the last states of the files reach them.
use distributed_cache_system.Prelude.{ℕ, ◌≡◌, ◌≢◌, refl, sym, ◌∙◌, false, Option, none, some, List}
use distributed_cache_system.Prelude.Maps.{update, update_self, update_ne}
use distributed_cache_system.Status.{Status, is_ok}
use distributed_cache_system.Types.{PutChunkRequest}
use distributed_cache_system.Posix.{FilePath, Fs, with_entry, path_eq, nat_eq, int_eq}
use distributed_cache_system.Posix.Settling.{settled, settled_contents}
use distributed_cache_system.Blake3.{Blake3}
use distributed_cache_system.Worker.Streams.{InputStream, Delivers}
use distributed_cache_system.Worker.FileChunkStore.Put.{k_buffer_size}
use distributed_cache_system.Worker.FileChunkStore.Put.Fill.{IsChunk, chunk_file}

module _ (b : Blake3) (request : PutChunkRequest) {W : Type 0} (input : InputStream W) where
  -- The final name is left alone and Put reports an error, or it was free and names a file that
  -- holds the header and a chunk that fits the request, and is what the stream delivered.
  pub data AtFinal (final : FilePath) (f : Fs) (w : W) (st : Status) (g : Fs) (w' : W)
      : Type 0 where
    left_alone : is_ok st ≡ false → g.entry final ≡ f.entry final → AtFinal final f w st g w'
    stored :
        (i : ℕ) (chunk : List ℕ)
        → f.entry final ≡ none
        → g.entry final ≡ some i
        → g.bytes i ≡ chunk_file request chunk
        → IsChunk b request chunk
        → Delivers input k_buffer_size w chunk w'
        → AtFinal final f w st g w'

  pub record PutOutcome (temp final : FilePath) (f : Fs) (w : W) (st : Status) (g : Fs) (w' : W)
      : Type 0 where
    pub others : (q : FilePath) → temp ≢ q → final ≢ q → g.entry q ≡ f.entry q
    pub contents : (q : FilePath) (j : ℕ) → f.entry q ≡ some j → g.bytes j ≡ f.bytes j
    pub descriptors : g.opened ≡ f.opened
    pub at_final : AtFinal final f w st g w'

  module _ (temp final : FilePath) (distinct : temp ≢ final) where
    pub outcome_unlinked :
        {f : Fs} {w w' : W} {i : ℕ} {st : Status} {g : Fs} (x : Option ℕ) (c : List ℕ)
        → ((q : FilePath) → f.entry q ≢ some i)
        → is_ok st ≡ false
        → g ≡ settled f temp x i c
        → PutOutcome temp final f w st g w'
    outcome_unlinked {f} {i} x c fresh bad e = rw e (record {
      others = λ q ne_temp ne_final. update_ne f.entry temp q x ne_temp;
      contents = settled_contents f i fresh c;
      descriptors = refl;
      at_final = left_alone bad (update_ne f.entry temp final x distinct);
    })

    pub outcome_linked :
        {f : Fs} {w w' : W} {i : ℕ} {st : Status} {g : Fs} (x : Option ℕ) (chunk : List ℕ)
        → ((q : FilePath) → f.entry q ≢ some i)
        → update f.entry temp (some i) final ≡ none
        → IsChunk b request chunk
        → Delivers input k_buffer_size w chunk w'
        → g
          ≡ with_entry
              (with_entry (settled f temp (some i) i (chunk_file request chunk)) final (some i))
              temp
              x
        → PutOutcome temp final f w st g w'
    outcome_linked {f} {i} x chunk fresh free is given e =
        let named = update f.entry temp (some i) in
        rw e (record {
          others = λ q ne_temp ne_final.
              update_ne (update named final (some i)) temp q x ne_temp
              ∙ update_ne named final q (some i) ne_final
              ∙ update_ne f.entry temp q (some i) ne_temp;
          contents = settled_contents f i fresh (chunk_file request chunk);
          descriptors = refl;
          at_final =
              stored i chunk (sym (update_ne f.entry temp final (some i) distinct) ∙ free)
                (update_ne (update named final (some i)) temp final x distinct
                  ∙ update_self named final (some i))
                (update_self f.bytes i _) is given;
        })

    pub outcome_refused :
        {f : Fs} {w w' : W} {st : Status} {g : Fs}
        → is_ok st ≡ false
        → g ≡ f
        → PutOutcome temp final f w st g w'
    outcome_refused bad e = rw e (record {
      others = λ q ne_temp ne_final. refl;
      contents = λ q j h. refl;
      descriptors = refl;
      at_final = left_alone bad refl;
    })
