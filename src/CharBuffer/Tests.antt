-- ===== src/CharBuffer/Tests.antt =====
-- `picodata_CharBuffer` at concrete buffers.
use platform_external_svox.Common.{
  ℕ, ◌+◌, ◌≡◌, refl, true, false, some, none, List, [], ◌∷◌, ◌++◌, arith, u16_mod,
}
use platform_external_svox.Status.{ok, exc_buf_overflow}
use platform_external_svox.CharBuffer.{
  CharBuffer, cb_get_item, cb_put_item, take_item, get_bytes, front_blen,
}
use platform_external_svox.CharBuffer.Valid.{IsValid, contents}
use platform_external_svox.CharBuffer.Queue.{
  Op, put, get, reset, stored, fetched, done, run, run_queue, store, fetch, run-run_queue,
}
use platform_external_svox.CharBuffer.Items.{
  observed, queue_got, put_queue, get_queue, cb_put_item-put_queue, cb_get_item-get_queue,
}
use platform_external_svox.CharBuffer.Fifo.{
  IsItem, Holds, Delivers, put_items, get_items, cb_put_item-put_items, cb_get_item-get_items,
}
use platform_external_svox.CharBuffer.Skip.{cb_get_speech_data_wraps}

-- Six bytes of storage; a word item of two bytes lies round its end.
abbrev wrapped : CharBuffer
wrapped = record { buf = 2 ∷ 7 ∷ 8 ∷ 119 ∷ 1 ∷ 1 ∷ 0 ∷ []; rear = 3; front = 3; len = 6; size = 6 }

abbrev word : List ℕ
word = 119 ∷ 1 ∷ 1 ∷ 2 ∷ 7 ∷ 8 ∷ []

wrapped-IsValid : IsValid wrapped
wrapped-IsValid = omega arith

word-IsItem : IsItem word
word-IsItem = omega arith

wrapped-Holds : Holds wrapped (word ∷ [])
wrapped-Holds = record { valid = wrapped-IsValid; bytes = refl; whole = (word-IsItem, tt) }

abbrev empty : CharBuffer
empty = record wrapped { rear = 3; len = 0 }

empty-Holds : Holds empty []
empty-Holds = record { valid = omega arith; bytes = refl; whole = tt }

-- The head of a word item that should have two bytes more.
abbrev partial : CharBuffer
partial = record wrapped { rear = 1; len = 4 }

partial-IsValid : IsValid partial
partial-IsValid = omega arith

abbrev script : List Op
script = get ∷ put 5 ∷ put 6 ∷ reset ∷ get ∷ put 9 ∷ get ∷ []

run_queue-script :
    run_queue 6 word script
    ≡ fetched (some 119)
      ∷ stored ok
      ∷ stored exc_buf_overflow
      ∷ done
      ∷ fetched none
      ∷ stored ok
      ∷ fetched (some 9)
      ∷ []
unfolding run_queue store fetch
run_queue-script = refl

run-run_queue_example : run wrapped script ≡ run_queue 6 word script
run-run_queue_example = run-run_queue script wrapped wrapped-IsValid

get_word :
    observed (cb_get_item wrapped (0 ∷ 0 ∷ 0 ∷ 0 ∷ 0 ∷ 0 ∷ 0 ∷ []) 7 false)
    ≡ queue_got ok [] (119 ∷ 1 ∷ 1 ∷ 2 ∷ 7 ∷ 8 ∷ 0 ∷ []) 6
unfolding cb_get_item front_blen take_item get_bytes
get_word = refl

cb_put_item-put_queue_runs :
    IsValid (cb_put_item empty word 6).1
    × ((cb_put_item empty word 6).1.size ≡ 6)
    × (let r = cb_put_item empty word 6 in (r.0, contents r.1, r.2) ≡ put_queue 6 [] word 6)
cb_put_item-put_queue_runs = cb_put_item-put_queue empty empty-Holds.valid word 6 (omega arith)

cb_get_item-get_queue_runs :
    IsValid (cb_get_item wrapped [] 6 true).cb
    × ((cb_get_item wrapped [] 6 true).cb.size ≡ 6)
    × (observed (cb_get_item wrapped [] 6 true) ≡ get_queue word [] 6 true)
cb_get_item-get_queue_runs =
    cb_get_item-get_queue wrapped wrapped-IsValid [] 6 true (λ s h ne. omega arith)

cb_put_item-put_items_example :
    let r = cb_put_item empty (word ++ (0 ∷ [])) 7 in
    let s = put_items 6 [] word in (r.0 ≡ s.0) × (r.2 ≡ s.2) × Holds r.1 s.1 × (r.1.size ≡ 6)
cb_put_item-put_items_example =
    cb_put_item-put_items empty [] word (0 ∷ []) 7 empty-Holds word-IsItem (omega arith)
      (omega arith)

cb_get_item-get_items_example :
    Delivers (cb_get_item wrapped (0 ∷ 0 ∷ []) 2 false) (get_items (word ∷ []) (0 ∷ 0 ∷ []) 2 false)
cb_get_item-get_items_example =
    cb_get_item-get_items wrapped (word ∷ []) (0 ∷ 0 ∷ []) 2 false wrapped-Holds

cb_get_speech_data_wraps_example :
    let r = cb_get_item partial [] 0 true in
    (r.status ≡ ok) × (r.cb.len + 6 ≡ 4 + u16_mod) × ¬ IsValid r.cb
cb_get_speech_data_wraps_example =
    cb_get_speech_data_wraps partial [] 0 partial-IsValid (omega arith) (omega arith) (omega arith)
      (omega arith) (omega arith)
