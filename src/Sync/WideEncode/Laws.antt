-- ===== src/Sync/WideEncode/Laws.antt =====
-- What the write-back of an encoded slice does when its store is used again.
use co.Prelude.{some, ◌≡◌, refl}
use co.Store.{Store}
use co.Sync.WideEncode.{WideEncode, wide_encode, wide_encode_sync}

module _ {ω κ σ π} {W : Type ω} {C : Type κ} {S : Type σ} {P : Type π} (store : Store W S)
    (drop_ctype : C → W → W) where
  -- Whatever the store held, a sync after an encode copies back the last encoding only, and once: the
  -- pointee as the foreign side left it, then its field stores. An earlier copy-back never runs.
  pub wide_encode_sync_last :
      (build : S → W → (C × P) × (S × W)) (copy_back : C → P → W → W) (self : WideEncode W C S P)
      (w w' : W) (c : C)
      → let (encoded, _) = wide_encode store drop_ctype build copy_back self w in
        let left : WideEncode W C S P = record {
          ctype = some c;
          fields = encoded.fields;
          writeback = encoded.writeback;
        } in
        let (built, (s, _)) = build self.fields w in
        wide_encode_sync store drop_ctype left w'
        ≡ store.sync s (drop_ctype c (copy_back c built.1 w'))
  unfolding wide_encode wide_encode_sync
  wide_encode_sync_last build copy_back self w w' c = refl
