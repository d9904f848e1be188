-- ===== src/Tests/Fetch.antt =====
-- A run of fetch/upload.go.
use goja_ext.Prelude.{false, [], ◌∷◌, some, codes, refl}
use goja_ext.Fetch.Upload.{
  chunk, Upload, new_upload_body, read_next_on_loop, promised, on_settled, chunk_value, serve,
}
use goja_ext.Fetch.Upload.Steps.{Reached, fresh, step, reads_next, settles, enqueues, takes, serves}
use goja_ext.Fetch.Upload.Delivered.{IsDelivered, Reached-IsDelivered}

-- A chunk is read, taken and given out in part.
abbrev first_read : Upload
first_read = record new_upload_body { queued_reads = 0; reads = 1 }

abbrev chunk_there : Upload
chunk_there = record first_read {
  reads = 0;
  items = chunk (codes "hello") ∷ [];
  taken = codes "hello";
}

abbrev part_given : Upload
part_given = record chunk_there {
  items = [];
  current = some (chunk (codes "llo"));
  given = codes "he";
}

part_run : Reached part_given
unfolding new_upload_body read_next_on_loop on_settled serve
part_run =
    step
      (step
        (step
          (step (step fresh (reads_next promised refl refl))
            (settles (chunk_value (codes "hello")) refl refl))
          (enqueues (chunk (codes "hello")) false refl refl))
        (takes (chunk (codes "hello")) [] refl refl refl))
      (serves 1 (chunk (codes "hello")) refl refl)

Reached-IsDelivered_example : IsDelivered part_given
Reached-IsDelivered_example = Reached-IsDelivered part_given part_run
