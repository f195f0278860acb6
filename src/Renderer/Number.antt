-- ===== src/Renderer/Number.antt =====
-- What `PrintInt` of kernel/renderer/BasicRenderer.cpp prints reads back as the number.
use optimist_os.Memory.{Memory}
