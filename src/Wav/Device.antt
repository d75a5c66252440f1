-- ===== src/Wav/Device.antt =====
-- The sound device of audio_utils.c, and its calls as those of audio_utils.h. The loops are given one
-- round of fuel more than there are bytes.
use ptr24_lab.Prelude.{ℕ, suc, Bool, false, List, take, if◌then◌else◌}
use ptr24_lab.Wav.Files.{Files, Read, Write}
use ptr24_lab.Wav.Interface.{AudioUtils}
use ptr24_lab.Wav.Header.{parse_wav_header, write_wav_header}
use ptr24_lab.Wav.Data.{copy_wav_data, write_wav_data, append_wav_data}
use ptr24_lab.Audio.Volume.{map_volume}

module _ (fs : Files) where
  -- `snd_fd`, as whether it is open, and the device behind it.
  pub record SoundDevice : Type 0 where
    pub snd_fd : Bool
    pub snd : fs.File

  -- A failure is reported on the terminal only.
  unfoldable pub init_audio : Bool → SoundDevice → ℕ × SoundDevice
  init_audio opens d = (0, record d { snd_fd = opens })

  unfoldable pub clear_audio : SoundDevice → SoundDevice
  clear_audio d = record d { snd_fd = false }

  -- `write` and `read`, which fail on a descriptor that is not open.
  unfoldable pub write_samples : List ℕ → ℕ → SoundDevice → Write × SoundDevice
  write_samples buf count d =
      let (r, snd') = fs.write d.snd (take count buf) in
      if d.snd_fd then (r, record d { snd = snd' }) else (Write.failed, d)

  unfoldable pub read_samples : ℕ → SoundDevice → Read × SoundDevice
  read_samples count d =
      let (r, snd') = fs.read d.snd count in
      if d.snd_fd then (r, record d { snd = snd' }) else (Read.failed, d)

  abbrev pub audio_utils : AudioUtils
  audio_utils = record {
    Sound = SoundDevice;
    File = fs.File;
    init_audio = init_audio;
    clear_audio = clear_audio;
    write_samples = write_samples;
    read_samples = read_samples;
    map_volume = map_volume;
    parse_wav_header = parse_wav_header fs;
    write_wav_header = write_wav_header fs;
    copy_wav_data = λ f size mem. copy_wav_data fs (suc size) f size mem;
    write_wav_data = λ f size mem. write_wav_data fs (suc size) f size mem;
    append_wav_data =
        λ f samples size garbage. append_wav_data fs (suc size) f samples size garbage;
  }
