-- ===== src/Scan/Shutter.antt =====
-- The shutter of the camera: onShutter of CameraCapture, mobile/app/(tabs)/scan.tsx.
use grocery_genie.Base.{
  nat_eq, string_eq, String, Bool, true, false, ◌||◌, Option, none, some, if◌then◌else◌,
}
use grocery_genie.Errors.{other}
use grocery_genie.Scan.Submission.{
  FlowState, capturing, Screen, Surroundings, Network, fail, Answer, is_processing, capture,
}

abbrev pub is_capturing : FlowState → Bool
is_capturing capturing = true
is_capturing _ = false

-- onShutter of CameraCapture: `photo` is `none` if takePictureAsync throws or gives no photo.
unfoldable pub on_shutter : Surroundings → Network → Option String → Answer → Screen → Screen
unfolding capture fail
on_shutter w net photo a s =
    if is_processing s.flow_state || is_capturing s.flow_state then s else elim photo [
      | none ↦ fail other (record s { flow_state = capturing })
      | some uri ↦ capture w net uri "image/jpeg" a s
    ]
