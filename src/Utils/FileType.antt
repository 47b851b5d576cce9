-- ===== src/Utils/FileType.antt =====
-- GetFileType and GetObjType of pkg/utils/file.go, with the constants of internal/conf/const.go. The lists of extensions
-- in conf.SlicesMap and strings.ToLower are parameters.
use xiaoya_qwen.Prelude.{List, Bytes, Bool, beq, if◌then◌else◌}
use xiaoya_qwen.Utils.Path.{ext}
use xiaoya_qwen.Utils.Slice.{slice_contains}

pub record Extensions : Type 0 where
  pub to_lower : Bytes → Bytes
  pub audio_types : List Bytes
  pub video_types : List Bytes
  pub image_types : List Bytes
  pub text_types : List Bytes

-- UNKNOWN to IMAGE
pub data FileType : Type 0 where
  unknown folder video audio text image : FileType

module _ (e : Extensions) where
  unfoldable pub get_file_type : Bytes → FileType
  unfolding slice_contains
  get_file_type filename =
      let x = e.to_lower (ext filename) in
      if slice_contains beq e.audio_types x
      then audio
      else if slice_contains beq e.video_types x
      then video
      else if slice_contains beq e.image_types x
      then image
      else if slice_contains beq e.text_types x
      then text
      else unknown

  unfoldable pub get_obj_type : Bytes → Bool → FileType
  unfolding get_file_type
  get_obj_type filename is_dir = if is_dir then folder else get_file_type filename
